-- ===== src/Mp4/Init.antt =====
-- libmp4/init_segment.go and init_segment_hevc.go: the initialisation segments.
use ggmpeg.Prelude.{
  ℕ, ◌*◌, ◌^◌, [], ◌∷◌, ◌++◌, ltb, if◌then◌else◌, length, replicate, Bytes, at, put_be16, put_be32,
}
use ggmpeg.Mp4.Box.{box_bytes, four_cc, full_box_header, container, put_be64}

pub record InitSegmentParams : Type 0 where
  pub track_id : ℕ
  pub timescale : ℕ
  pub width : ℕ
  pub height : ℕ
  pub sps : Bytes
  pub pps : Bytes

pub record HevcInitParams : Type 0 where
  pub track_id : ℕ
  pub timescale : ℕ
  pub width : ℕ
  pub height : ℕ
  pub hvcc_record : Bytes

unfoldable pub ftyp : Bytes
ftyp = box_bytes (record {
  type = four_cc b'f' b't' b'y' b'p';
  body =
      four_cc b'i' b's' b'o' b'6'
      ++ (put_be32 1
          ++ (four_cc b'i' b's' b'o' b'6'
              ++ (four_cc b'm' b'p' b'4' b'1' ++ four_cc b'c' b'm' b'f' b'c')));
})

-- The matrix, 9 numbers.
abbrev pub unity_matrix : Bytes
unity_matrix =
    put_be32 0x10000
    ++ (replicate 12 0 ++ (put_be32 0x10000 ++ (replicate 12 0 ++ put_be32 0x40000000)))

unfoldable pub mvhd : ℕ → Bytes
mvhd timescale = box_bytes (record {
  type = four_cc b'm' b'v' b'h' b'd';
  body =
      full_box_header 1 0
      ++ (put_be64 0
          ++ (put_be64 0
              ++ (put_be32 timescale
                  ++ (put_be64 0
                      ++ (put_be32 0x00010000
                          ++ (put_be16 0x0100
                              ++ (put_be16 0
                                  ++ (replicate 8 0
                                      ++ (unity_matrix ++ (replicate 24 0 ++ put_be32 2))))))))));
})

unfoldable pub tkhd : ℕ → ℕ → ℕ → Bytes
tkhd track_id width height = box_bytes (record {
  type = four_cc b't' b'k' b'h' b'd';
  body =
      full_box_header 1 0x000007
      ++ (put_be64 0
          ++ (put_be64 0
              ++ (put_be32 track_id
                  ++ (put_be32 0
                      ++ (put_be64 0
                          ++ (replicate 8 0
                              ++ (replicate 8 0
                                  ++ (unity_matrix
                                      ++ (put_be32 (width * 2 ^ 16)
                                          ++ put_be32 (height * 2 ^ 16))))))))));
})

unfoldable pub mdhd : ℕ → Bytes
mdhd timescale = box_bytes (record {
  type = four_cc b'm' b'd' b'h' b'd';
  body =
      full_box_header 1 0
      ++ (put_be64 0
          ++ (put_be64 0
              ++ (put_be32 timescale ++ (put_be64 0 ++ (put_be16 0x55c4 ++ put_be16 0)))));
})

unfoldable pub hdlr : Bytes → Bytes → Bytes
hdlr handler_type name = box_bytes (record {
  type = four_cc b'h' b'd' b'l' b'r';
  body =
      full_box_header 0 0
      ++ (put_be32 0 ++ (handler_type ++ (replicate 12 0 ++ (name ++ (0 ∷ [])))));
})

-- "VideoHandler"
abbrev pub video_handler : Bytes
video_handler =
    b'V' ∷ b'i' ∷ b'd' ∷ b'e' ∷ b'o' ∷ b'H' ∷ b'a' ∷ b'n' ∷ b'd' ∷ b'l' ∷ b'e' ∷ b'r' ∷ []

unfoldable pub vmhd : Bytes
vmhd =
    box_bytes
      (record { type = four_cc b'v' b'm' b'h' b'd'; body = full_box_header 0 1 ++ replicate 8 0 })

unfoldable pub dref : Bytes
dref = box_bytes (record {
  type = four_cc b'd' b'r' b'e' b'f';
  body =
      full_box_header 0 0
      ++ (put_be32 1
          ++ box_bytes (record { type = four_cc b'u' b'r' b'l' b' '; body = full_box_header 0 1 }));
})

unfoldable pub dinf : Bytes
dinf = container (four_cc b'd' b'i' b'n' b'f') (dref ∷ [])

unfoldable pub empty_full_box : Bytes → Bytes
empty_full_box type = box_bytes (record { type = type; body = full_box_header 0 0 ++ put_be32 0 })

unfoldable pub empty_stsz : Bytes
empty_stsz = box_bytes (record {
  type = four_cc b's' b't' b's' b'z';
  body = full_box_header 0 0 ++ (put_be32 0 ++ put_be32 0);
})

-- The sample entry's 78 bytes, and the codec's configuration behind them.
unfoldable pub visual_sample_entry : ℕ → ℕ → Bytes → Bytes
visual_sample_entry width height config =
    replicate 6 0
    ++ (put_be16 1
        ++ (replicate 16 0
            ++ (put_be16 width
                ++ (put_be16 height
                    ++ (put_be32 0x00480000
                        ++ (put_be32 0x00480000
                            ++ (put_be32 0
                                ++ (put_be16 1
                                    ++ (replicate 32 0
                                        ++ (put_be16 0x0018 ++ (put_be16 0xffff ++ config)))))))))))

unfoldable pub avcc_body : Bytes → Bytes → Bytes
avcc_body sps pps =
    1
    ∷ at sps 1
    ∷ at sps 2
    ∷ at sps 3
    ∷ 0xff
    ∷ 0xe1
    ∷ (put_be16 (length sps) ++ (sps ++ (1 ∷ (put_be16 (length pps) ++ pps))))

unfoldable pub avc_c : Bytes → Bytes → Bytes
avc_c sps pps = box_bytes (record {
  type = four_cc b'a' b'v' b'c' b'C';
  body = if ltb (length sps) 4 then [] else avcc_body sps pps;
})

unfoldable pub avc1 : InitSegmentParams → Bytes
avc1 p = box_bytes (record {
  type = four_cc b'a' b'v' b'c' b'1';
  body = visual_sample_entry p.width p.height (avc_c p.sps p.pps);
})

unfoldable pub hvc_c : Bytes → Bytes
hvc_c rec = box_bytes (record { type = four_cc b'h' b'v' b'c' b'C'; body = rec })

unfoldable pub hev1 : HevcInitParams → Bytes
hev1 p = box_bytes (record {
  type = four_cc b'h' b'e' b'v' b'1';
  body = visual_sample_entry p.width p.height (hvc_c p.hvcc_record);
})

unfoldable pub stsd : Bytes → Bytes
stsd entry = box_bytes (record {
  type = four_cc b's' b't' b's' b'd';
  body = full_box_header 0 0 ++ (put_be32 1 ++ entry);
})

unfoldable pub stbl : Bytes → Bytes
stbl entry = container (four_cc b's' b't' b'b' b'l') (
    stsd entry
    ∷ empty_full_box (four_cc b's' b't' b't' b's')
    ∷ empty_full_box (four_cc b's' b't' b's' b'c')
    ∷ empty_stsz
    ∷ empty_full_box (four_cc b's' b't' b'c' b'o')
    ∷ [])

unfoldable pub minf : Bytes → Bytes
minf entry = container (four_cc b'm' b'i' b'n' b'f') (vmhd ∷ dinf ∷ stbl entry ∷ [])

unfoldable pub mdia : ℕ → Bytes → Bytes
mdia timescale entry =
    container (four_cc b'm' b'd' b'i' b'a')
      (mdhd timescale ∷ hdlr (four_cc b'v' b'i' b'd' b'e') video_handler ∷ minf entry ∷ [])

unfoldable pub trex : ℕ → Bytes
trex track_id = box_bytes (record {
  type = four_cc b't' b'r' b'e' b'x';
  body = full_box_header 0 0 ++ (put_be32 track_id ++ (put_be32 1 ++ replicate 12 0));
})

unfoldable pub mvex : ℕ → Bytes
mvex track_id = container (four_cc b'm' b'v' b'e' b'x') (trex track_id ∷ [])

unfoldable pub trak : ℕ → ℕ → ℕ → ℕ → Bytes → Bytes
trak track_id timescale width height entry =
    container (four_cc b't' b'r' b'a' b'k') (tkhd track_id width height ∷ mdia timescale entry ∷ [])

unfoldable pub moov : ℕ → ℕ → ℕ → ℕ → Bytes → Bytes
moov track_id timescale width height entry =
    container (four_cc b'm' b'o' b'o' b'v')
      (mvhd timescale ∷ trak track_id timescale width height entry ∷ mvex track_id ∷ [])

unfoldable pub build_init_segment : InitSegmentParams → Bytes
build_init_segment p = ftyp ++ moov p.track_id p.timescale p.width p.height (avc1 p)

unfoldable pub build_hevc_init_segment : HevcInitParams → Bytes
build_hevc_init_segment p = ftyp ++ moov p.track_id p.timescale p.width p.height (hev1 p)
