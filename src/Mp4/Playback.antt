-- ===== src/Mp4/Playback.antt =====
-- A player's way through a media segment, and BuildMediaSegment (libmp4/media_segment.go).
use ggmpeg.Prelude.{
  ℕ, zero, suc, ◌+◌, ◌*◌, ◌%◌, ◌^◌, ◌<◌, ◌≡◌, refl, ap, ◌∙◌, Bool, true, false, ◌&&◌, Option, none,
  some, List, [], ◌∷◌, ◌++◌, append-nil, arith, ◌==◌, if◌then◌else◌, length, length-append, take,
  drop, take-append_left, drop-append_left, drop-append_past, Bytes, All, be32_at,
}
use ggmpeg.Mp4.Box.{Box, box_bytes, four_cc, concat_bytes, container}
use ggmpeg.Mp4.Media.{
  Sample, MediaSegmentParams, mfhd, tfhd, tfdt, trun, traf, trun_entries, build_moof, all_payloads,
  build_media_segment,
}
use ggmpeg.Mp4.Reader.{read_boxes, boxes_bytes, IsBox, read_boxes-boxes_bytes}

unfoldable pub same_bytes : Bytes → Bytes → Bool
same_bytes [] [] = true
same_bytes [] (y ∷ ys) = false
same_bytes (x ∷ xs) [] = false
same_bytes (x ∷ xs) (y ∷ ys) = x == y && same_bytes xs ys

-- The body of the first box of a type among the boxes that fill a byte string.
unfoldable pub find_box : Bytes → List Box → Option Bytes
find_box type [] = none
find_box type (b ∷ bs) = if same_bytes b.type type then some b.body else find_box type bs

unfoldable pub enter : Bytes → Bytes → Option Bytes
enter type b = elim (read_boxes b) [ some bs ↦ find_box type bs | none ↦ none ]

-- The sizes in the entries of a trun with four fields each.
unfoldable pub sample_sizes : ℕ → Bytes → List ℕ
sample_sizes zero b = []
sample_sizes (suc n) b = be32_at b 4 ∷ sample_sizes n (drop 16 b)

unfoldable pub cut : List ℕ → Bytes → List Bytes
cut [] b = []
cut (n ∷ ns) b = take n b ∷ cut ns (drop n b)

-- By ISO 14496-12: the data offset of the trun counts from the start of the moof, and the samples lie
-- there one behind the other.
unfoldable pub play_trun : Bytes → Bytes → List Bytes
play_trun seg t = cut (sample_sizes (be32_at t 4) (drop 12 t)) (drop (be32_at t 8) seg)

unfoldable pub play : Bytes → Option (List Bytes)
play seg = elim (enter (four_cc b'm' b'o' b'o' b'f') seg) [
  | some moof ↦ elim (enter (four_cc b't' b'r' b'a' b'f') moof) [
    | some tr ↦ elim (enter (four_cc b't' b'r' b'u' b'n') tr) [
      | some t ↦ some (play_trun seg t)
      | none ↦ none
    ]
    | none ↦ none
  ]
  | none ↦ none
]

-- The samples of a segment: sizes as the data has them, and 32-bit fields.
pub record IsSample (s : Sample) : Type 0 where
  pub size_lem : s.size ≡ length s.payload
  pub size_fits : s.size < 2 ^ 32

unfoldable pub payloads : List Sample → List Bytes
payloads [] = []
payloads (s ∷ samples) = s.payload ∷ payloads samples

unfoldable sizes : List Sample → List ℕ
sizes [] = []
sizes (s ∷ samples) = s.size ∷ sizes samples

cut-all_payloads :
    (samples : List Sample)
    → All IsSample samples
    → cut (sizes samples) (all_payloads samples) ≡ payloads samples
unfolding cut all_payloads payloads sizes
cut-all_payloads [] ws = refl
cut-all_payloads (s ∷ samples) (w, ws) =
    rw
      (
        take-append_left s.payload (all_payloads samples) s.size w.size_lem,
        drop-append_left s.payload (all_payloads samples) s.size w.size_lem,
        cut-all_payloads samples ws,
      )
      refl

sample_sizes-trun_entries :
    (samples : List Sample)
    → All IsSample samples
    → sample_sizes (length samples) (trun_entries samples) ≡ sizes samples
unfolding sample_sizes trun_entries sizes
sample_sizes-trun_entries [] ws = refl
sample_sizes-trun_entries (s ∷ samples) (w, ws) =
    let size : be32_at (trun_entries (s ∷ samples)) 4 ≡ s.size = ground (arith, w.size_fits) in
    rw (size, sample_sizes-trun_entries samples ws) refl

length-trun_entries : (samples : List Sample) → length (trun_entries samples) ≡ 16 * length samples
unfolding trun_entries
length-trun_entries [] = refl
length-trun_entries (s ∷ samples) = omega (arith, length-trun_entries samples)

-- The boxes of a segment.
abbrev traf_box : MediaSegmentParams → ℕ → Box
traf_box p off = record {
  type = four_cc b't' b'r' b'a' b'f';
  body = boxes_bytes (tfhd p.track_id ∷ tfdt p.base_decode_time ∷ trun p.samples off ∷ []);
}

abbrev moof_box : MediaSegmentParams → ℕ → Box
moof_box p off = record {
  type = four_cc b'm' b'o' b'o' b'f';
  body = boxes_bytes (mfhd p.sequence_number ∷ traf_box p off ∷ []);
}

abbrev mdat_box : MediaSegmentParams → Box
mdat_box p = record { type = four_cc b'm' b'd' b'a' b't'; body = all_payloads p.samples }

build_moof_lem : (p : MediaSegmentParams) (off : ℕ) → build_moof p off ≡ box_bytes (moof_box p off)
unfolding build_moof traf container concat_bytes boxes_bytes
build_moof_lem p off = refl

length-traf_box :
    (p : MediaSegmentParams) (off : ℕ) → length (traf_box p off).body ≡ 56 + 16 * length p.samples
unfolding boxes_bytes box_bytes
length-traf_box p off =
    omega (arith, length-append (trun_entries p.samples) [], length-trun_entries p.samples)

length-moof_box :
    (p : MediaSegmentParams) (off : ℕ) → length (moof_box p off).body ≡ 80 + 16 * length p.samples
unfolding boxes_bytes box_bytes
length-moof_box p off = omega (
  arith,
  length-append (trun_entries p.samples ++ []) [],
  length-append (trun_entries p.samples) [],
  length-trun_entries p.samples,
)

length-build_moof : (p : MediaSegmentParams) → length (build_moof p 0) ≡ 88 + 16 * length p.samples
unfolding box_bytes
length-build_moof p = rw (build_moof_lem p 0) (omega (arith, length-moof_box p 0))

-- Where the data starts.
abbrev data_offset : MediaSegmentParams → ℕ
data_offset p = 96 + 16 * length p.samples

-- A segment of less than 2 ^ 31 bytes, with a sample at least.
pub record IsSegment (p : MediaSegmentParams) : Type 0 where
  pub samples_lem : All IsSample p.samples
  pub not_empty : 0 < length p.samples
  pub size_fits : data_offset p + length (all_payloads p.samples) < 2 ^ 31

build_media_segment_lem :
    (p : MediaSegmentParams)
    → IsSegment p
    → build_media_segment p ≡ boxes_bytes (moof_box p (data_offset p) ∷ mdat_box p ∷ [])
unfolding build_media_segment boxes_bytes
build_media_segment_lem p w =
    let some_samples : (length p.samples == 0) ≡ false = ground (arith, w.not_empty) in
    let len : length (build_moof p 0) ≡ 88 + 16 * length p.samples = length-build_moof p in
    let off : (length (build_moof p 0) + 8) % 2 ^ 32 ≡ data_offset p = omega (arith, w.size_fits) in
    rw (some_samples, off, build_moof_lem p (data_offset p), append-nil (box_bytes (mdat_box p)))
      refl

enter-boxes_bytes :
    (type : Bytes) (bs : List Box) → All IsBox bs → enter type (boxes_bytes bs) ≡ find_box type bs
unfolding enter
enter-boxes_bytes type bs ws = rw (read_boxes-boxes_bytes bs ws, enter) refl

enter_moof :
    (p : MediaSegmentParams)
    → IsSegment p
    → enter (four_cc b'm' b'o' b'o' b'f') (build_media_segment p)
      ≡ some (moof_box p (data_offset p)).body
unfolding find_box same_bytes
enter_moof p w =
    let ws : All IsBox (moof_box p (data_offset p) ∷ mdat_box p ∷ []) = (
      record {
        type_length = refl;
        body_fits = omega (arith, length-moof_box p (data_offset p), w.size_fits);
      },
      (record { type_length = refl; body_fits = omega (arith, w.size_fits) }, tt),
    ) in
    rw (build_media_segment_lem p w) (enter-boxes_bytes (four_cc b'm' b'o' b'o' b'f') _ ws)

enter_traf :
    (p : MediaSegmentParams)
    → IsSegment p
    → enter (four_cc b't' b'r' b'a' b'f') (moof_box p (data_offset p)).body
      ≡ some (traf_box p (data_offset p)).body
unfolding find_box same_bytes
enter_traf p w =
    let ws : All IsBox (mfhd p.sequence_number ∷ traf_box p (data_offset p) ∷ []) = (
      record { type_length = refl; body_fits = omega arith },
      (
        record {
          type_length = refl;
          body_fits = omega (arith, length-traf_box p (data_offset p), w.size_fits);
        },
        tt,
      ),
    ) in
    enter-boxes_bytes (four_cc b't' b'r' b'a' b'f') _ ws

enter-trun :
    (p : MediaSegmentParams)
    → IsSegment p
    → enter (four_cc b't' b'r' b'u' b'n') (traf_box p (data_offset p)).body
      ≡ some (trun p.samples (data_offset p)).body
unfolding find_box same_bytes
enter-trun p w =
    let ws : All IsBox
        (tfhd p.track_id ∷ tfdt p.base_decode_time ∷ trun p.samples (data_offset p) ∷ []) =
      (
        record { type_length = refl; body_fits = omega arith },
        (
          record { type_length = refl; body_fits = omega arith },
          (
            record {
              type_length = refl;
              body_fits = omega (arith, length-trun_entries p.samples, w.size_fits);
            },
            tt,
          ),
        ),
      ) in
    enter-boxes_bytes (four_cc b't' b'r' b'u' b'n') _ ws

drop-build_media_segment :
    (p : MediaSegmentParams)
    → IsSegment p
    → drop (data_offset p) (build_media_segment p) ≡ all_payloads p.samples
unfolding boxes_bytes box_bytes
drop-build_media_segment p w =
    let moof = box_bytes (moof_box p (data_offset p)) in
    let mdat = box_bytes (mdat_box p) in
    let len : data_offset p ≡ length moof + 8 = omega (arith, length-moof_box p (data_offset p)) in
    rw (build_media_segment_lem p w) (
      drop-append_past moof (mdat ++ []) (data_offset p) 8 len
      ∙ append-nil (all_payloads p.samples))

play_trun-build_media_segment :
    (p : MediaSegmentParams)
    → IsSegment p
    → play_trun (build_media_segment p) (trun p.samples (data_offset p)).body ≡ payloads p.samples
unfolding play_trun
play_trun-build_media_segment p w =
    let t = (trun p.samples (data_offset p)).body in
    let count : be32_at t 4 ≡ length p.samples = omega (arith, w.size_fits) in
    let off : be32_at t 8 ≡ data_offset p = omega (arith, w.size_fits) in
    rw (count, off, drop-build_media_segment p w, sample_sizes-trun_entries p.samples w.samples_lem)
      (cut-all_payloads p.samples w.samples_lem)

-- A player that enters the boxes of a media segment, takes the data offset and the sizes from its
-- trun, and cuts there, gets the payloads of the samples in order: if there is one at least, each
-- Size is the payload's length, and the segment is shorter than 2 ^ 31 bytes.
pub play-build_media_segment :
    (p : MediaSegmentParams)
    → IsSegment p
    → play (build_media_segment p) ≡ some (payloads p.samples)
unfolding play
play-build_media_segment p w =
    rw (enter_moof p w, play, enter_traf p w, enter-trun p w)
      (ap some (play_trun-build_media_segment p w))
