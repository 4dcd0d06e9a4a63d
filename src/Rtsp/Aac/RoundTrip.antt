-- ===== src/Rtsp/Aac/RoundTrip.antt =====
-- AACAUExtract on what PackAACFrame builds (librtsp/aac.go, librtsp/rtp_unpack.go).
use ggmpeg.Prelude.{
  ◌-◌, ◌*◌, ◌^◌, ◌<◌, ◌≡◌, inl, inr, [], ◌∷◌, ◌++◌, arith, leb, leb→le, leb-false→lt, Bool-cases,
  length, take, length-take, take_whole, Bytes, put_be16,
}
use ggmpeg.Rtsp.Aac.{pack_aac_frame, au_sizes, split_units, aac_au_extract}

extract_one :
    (frame : Bytes)
    → 0 < length frame
    → length frame < 2 ^ 13
    → aac_au_extract (put_be16 16 ++ (put_be16 (length frame * 2 ^ 3) ++ frame)) ≡ frame ∷ []
unfolding aac_au_extract au_sizes split_units
extract_one frame h0 h1 = ground (arith, take_whole frame (length frame) (omega arith))

-- A frame that is not empty comes back as the one access unit of its payload, whole if it is shorter
-- than 2 ^ 13 bytes, and otherwise as its first 2 ^ 13 - 1 bytes.
pub aac_au_extract-pack_aac_frame :
    (frame : Bytes)
    → 0 < length frame
    → aac_au_extract (pack_aac_frame frame) ≡ take (2 ^ 13 - 1) frame ∷ []
unfolding pack_aac_frame
aac_au_extract-pack_aac_frame [] h = absurd (omega arith)
aac_au_extract-pack_aac_frame (b ∷ rest) h = elim (Bool-cases (leb (2 ^ 13) (length (b ∷ rest)))) [
  | inl e ↦ rw e (
      extract_one (take (2 ^ 13 - 1) (b ∷ rest))
        (omega (arith, length-take (2 ^ 13 - 1) (b ∷ rest), leb→le _ _ e))
        (omega (arith, length-take (2 ^ 13 - 1) (b ∷ rest))))
  | inr e ↦
      rw (e, take_whole (b ∷ rest) (2 ^ 13 - 1) (omega (arith, leb-false→lt _ _ e)))
        (extract_one (b ∷ rest) h (leb-false→lt _ _ e))
]
