-- ===== src/Avc/Stream.antt =====
-- What GetAnnexbH264 (libavc/avc.go) makes of an access unit, by the kinds of its units.
use ggmpeg.Prelude.{
  ℕ, ◌%◌, ◌^◌, ◌≡◌, refl, sym, ap, ◌∙◌, ◌≢◌, Bool, true, false, ◌||◌, none, List, [], ◌∷◌, ◌++◌,
  append-nil, append_assoc, arith, ◌==◌, if◌then◌else◌, length, Bytes, All, at,
}
use ggmpeg.Rtsp.H264.{avcc_from_nals}
use ggmpeg.Avc.{start_code, nalu_aud, get_annexb_h264}
use ggmpeg.Avc.Units.{IsUnit, byte_stream, get_annexb_h264-avcc_from_nals}
use ggmpeg.Live.Annexb.{join_annexb}

abbrev pub type_of : Bytes → ℕ
type_of n = at n 0 % 2 ^ 5

-- A slice, an IDR unit or SEI.
unfoldable pub is_coded : Bytes → Bool
is_coded n = type_of n == 1 || type_of n == 5 || type_of n == 6

-- An SPS or a PPS.
unfoldable pub is_set : Bytes → Bool
is_set n = type_of n == 7 || type_of n == 8

unfoldable pub keep : (Bytes → Bool) → List Bytes → List Bytes
keep p [] = []
keep p (n ∷ ns) = (if p n then n ∷ [] else []) ++ keep p ns

abbrev pub IsOther : Bytes → Type 0
IsOther n = type_of n ≢ 5

-- The parameter sets to write: those of the access unit, or the configuration's where it has none.
unfoldable pub sets_or : Bytes → List Bytes → Bytes
sets_or info [] = info
sets_or info (n ∷ ns) = join_annexb (n ∷ ns)

join-append : (xs ys : List Bytes) → join_annexb (xs ++ ys) ≡ join_annexb xs ++ join_annexb ys
unfolding join_annexb
join-append [] ys = refl
join-append (x ∷ xs) ys =
    ap (λ b. 0 ∷ 0 ∷ 0 ∷ 1 ∷ b)
      (ap (λ b. x ++ b) (join-append xs ys)
        ∙ sym (append_assoc x (join_annexb xs) (join_annexb ys)))

-- Behind the first IDR unit the parameter sets are out.
byte_stream-written :
    (info sets : Bytes) (ns : List Bytes)
    → byte_stream info sets true ns ≡ join_annexb (keep is_coded ns)
unfolding byte_stream join_annexb keep is_coded
byte_stream-written info sets [] = refl
byte_stream-written info sets (n ∷ ns) =
    let same = byte_stream-written info sets ns in
    let set = byte_stream-written info (sets ++ (start_code ++ n)) ns in ground (arith, same, set)

-- In front of the first IDR unit the parameter sets are gathered.
byte_stream-others :
    (info sets : Bytes) (ns rest : List Bytes)
    → All IsOther ns
    → byte_stream info sets false (ns ++ rest)
      ≡ join_annexb (keep is_coded ns)
        ++ byte_stream info (sets ++ join_annexb (keep is_set ns)) false rest
unfolding byte_stream join_annexb keep is_coded is_set
byte_stream-others info sets [] rest h = rw append-nil refl
byte_stream-others info sets (n ∷ ns) rest (h, hs) =
    let same = byte_stream-others info sets ns rest hs in
    let set = byte_stream-others info (sets ++ (start_code ++ n)) ns rest hs in
    let tail = byte_stream info (sets ++ join_annexb (keep is_set ns)) false rest in
    let behind = append_assoc n (join_annexb (keep is_coded ns)) tail in
    let gathered = append_assoc sets (start_code ++ n) (join_annexb (keep is_set ns)) in
    ground (arith, same, set, behind, gathered)

sets_lem :
    (info : Bytes) (ns : List Bytes)
    → (if length (join_annexb ns) == 0 then info else join_annexb ns) ≡ sets_or info ns
unfolding sets_or join_annexb
sets_lem info [] = refl
sets_lem info (n ∷ ns) = ground arith

byte_stream-idr :
    (info sets idr : Bytes) (ns : List Bytes)
    → type_of idr ≡ 5
    → byte_stream info sets false (idr ∷ ns)
      ≡ (if length sets == 0 then info else sets) ++ join_annexb (idr ∷ keep is_coded ns)
unfolding byte_stream join_annexb
byte_stream-idr info sets idr ns h =
    let kind : (type_of idr == 5) ≡ true = ground arith in
    rw (kind, byte_stream-written info sets ns) refl

stream_lem :
    (info idr : Bytes) (before behind : List Bytes)
    → All IsOther before
    → type_of idr ≡ 5
    → byte_stream info [] false (before ++ idr ∷ behind)
      ≡ join_annexb (keep is_coded before)
        ++ (sets_or info (keep is_set before) ++ join_annexb (idr ∷ keep is_coded behind))
stream_lem info idr before behind ho hi =
    let coded = join_annexb (keep is_coded before) in
    let sets = join_annexb (keep is_set before) in
    byte_stream-others info [] before (idr ∷ behind) ho
    ∙ ap (λ b. coded ++ b)
        (byte_stream-idr info sets idr behind hi
          ∙ ap (λ b. b ++ join_annexb (idr ∷ keep is_coded behind))
              (sets_lem info (keep is_set before)))

-- An access unit with an IDR unit, in length-prefixed units that are not empty, is converted with no
-- error. Out come an access unit delimiter; the slices and SEI in front of the first IDR unit; the
-- parameter sets from in front of it, or the decoder configuration's if there are none; that unit;
-- and the slices, IDR units and SEI behind it; each behind a start code and in order. Units of all
-- other types (the data partitions 2 to 4 among them) and the parameter sets behind the first IDR
-- unit are left out. The fuel is the source's length and one.
pub get_annexb_h264-key_frame :
    (info idr : Bytes) (before behind : List Bytes)
    → All IsUnit (before ++ idr ∷ behind)
    → All IsOther before
    → type_of idr ≡ 5
    → let (a, e) = get_annexb_h264 info (avcc_from_nals (before ++ idr ∷ behind)) in
      (a.out
        ≡ nalu_aud
          ++ (join_annexb (keep is_coded before)
              ++ (sets_or info (keep is_set before) ++ join_annexb (idr ∷ keep is_coded behind))))
      × (e ≡ none)
get_annexb_h264-key_frame info idr [] behind hu ho hi =
    let (out, ok) = get_annexb_h264-avcc_from_nals info idr behind hu in
    (out ∙ ap (λ b. nalu_aud ++ b) (stream_lem info idr [] behind ho hi), ok)
get_annexb_h264-key_frame info idr (n ∷ before) behind hu ho hi =
    let (out, ok) = get_annexb_h264-avcc_from_nals info n (before ++ idr ∷ behind) hu in
    (out ∙ ap (λ b. nalu_aud ++ b) (stream_lem info idr (n ∷ before) behind ho hi), ok)
