-- ===== src/Mp4/Media.antt =====
-- libmp4/media_segment.go: one fragment, moof and mdat.
use ggmpeg.Prelude.{
  ℕ, ◌+◌, ◌%◌, ◌^◌, Bool, List, [], ◌∷◌, ◌++◌, ◌==◌, if◌then◌else◌, length, Bytes, put_be32,
}
use ggmpeg.Mp4.Box.{Box, box_bytes, four_cc, full_box_header, container, put_be64}

-- The composition offset is an int32, held as its 32-bit pattern. The source's field Data is `payload`.
pub record Sample : Type 0 where
  pub duration : ℕ
  pub size : ℕ
  pub is_key : Bool
  pub composition_time_offset : ℕ
  pub payload : Bytes

pub record MediaSegmentParams : Type 0 where
  pub track_id : ℕ
  pub sequence_number : ℕ
  pub base_decode_time : ℕ
  pub samples : List Sample

abbrev pub mfhd : ℕ → Box
mfhd seq = record { type = four_cc b'm' b'f' b'h' b'd'; body = full_box_header 0 0 ++ put_be32 seq }

abbrev pub tfhd : ℕ → Box
tfhd track_id = record {
  type = four_cc b't' b'f' b'h' b'd';
  body = full_box_header 0 0x020000 ++ put_be32 track_id;
}

abbrev pub tfdt : ℕ → Box
tfdt base_time = record {
  type = four_cc b't' b'f' b'd' b't';
  body = full_box_header 1 0 ++ put_be64 base_time;
}

abbrev pub trun_flags : ℕ
trun_flags = 0x000001 + 0x000100 + 0x000200 + 0x000400 + 0x000800

unfoldable pub avc_sample_flags : Bool → ℕ
avc_sample_flags is_key = if is_key then 0x02000000 else 0x01010000

unfoldable pub trun_entries : List Sample → Bytes
trun_entries [] = []
trun_entries (s ∷ samples) =
    put_be32 s.duration
    ++ (put_be32 s.size
        ++ (put_be32 (avc_sample_flags s.is_key)
            ++ (put_be32 s.composition_time_offset ++ trun_entries samples)))

abbrev pub trun : List Sample → ℕ → Box
trun samples data_offset = record {
  type = four_cc b't' b'r' b'u' b'n';
  body =
      full_box_header 1 trun_flags
      ++ (put_be32 (length samples) ++ (put_be32 data_offset ++ trun_entries samples));
}

unfoldable pub traf : MediaSegmentParams → ℕ → Bytes
traf p data_offset = container (four_cc b't' b'r' b'a' b'f') (
    box_bytes (tfhd p.track_id)
    ∷ box_bytes (tfdt p.base_decode_time)
    ∷ box_bytes (trun p.samples data_offset)
    ∷ [])

unfoldable pub build_moof : MediaSegmentParams → ℕ → Bytes
build_moof p data_offset =
    container (four_cc b'm' b'o' b'o' b'f')
      (box_bytes (mfhd p.sequence_number) ∷ traf p data_offset ∷ [])

unfoldable pub all_payloads : List Sample → Bytes
all_payloads [] = []
all_payloads (s ∷ samples) = s.payload ++ all_payloads samples

-- The fragment is laid out once to learn the offset of the data, and once with it.
unfoldable pub build_media_segment : MediaSegmentParams → Bytes
build_media_segment p =
    let mdat =
      box_bytes (record { type = four_cc b'm' b'd' b'a' b't'; body = all_payloads p.samples }) in
    let data_offset = (length (build_moof p 0) + 8) % 2 ^ 32 in
    if length p.samples == 0 then [] else build_moof p data_offset ++ mdat

unfoldable pub build_segment_type : Bytes
build_segment_type = box_bytes (record {
  type = four_cc b's' b't' b'y' b'p';
  body =
      four_cc b'm' b's' b'd' b'h'
      ++ (put_be32 0 ++ (four_cc b'm' b's' b'd' b'h' ++ four_cc b'm' b's' b'i' b'x'));
})
