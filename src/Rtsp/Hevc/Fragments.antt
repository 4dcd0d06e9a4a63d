-- ===== src/Rtsp/Hevc/Fragments.antt =====
-- The fragments of PackHEVCNAL at a receiver by RFC 7798 (librtsp/hevc.go).
use ggmpeg.Prelude.{
  ℕ, ◌+◌, ◌*◌, ◌/◌, ◌%◌, ◌^◌, Option, none, some, List, [], ◌∷◌, ◌++◌, ◌==◌, if◌then◌else◌, Bytes,
  has_bit,
}
use ggmpeg.Rtsp.H264.{default_mtu}

-- RFC 7798, 4.4.3: the payload header's first byte with the type of the FU header put back.
abbrev pub original_header : ℕ → ℕ → ℕ
original_header hdr0 fu = hdr0 / 2 ^ 7 * 2 ^ 7 + fu % 2 ^ 6 * 2 + hdr0 % 2

-- The fragments of one NAL unit, by their S and E bits: `none` where they do not fit together.
unfoldable pub collect_fragments : Bytes → List Bytes → Option Bytes
collect_fragments acc [] = none
collect_fragments acc ((hdr0 ∷ hdr1 ∷ fu ∷ chunk) ∷ rest) =
    let begun = if has_bit fu 7 then original_header hdr0 fu ∷ hdr1 ∷ [] else acc in
    let more = collect_fragments (begun ++ chunk) rest in
    if has_bit fu 6 then some (begun ++ chunk) else more
collect_fragments acc (_ ∷ rest) = none

-- A receiver's view: type 49 is a fragment, any other payload is a NAL unit.
unfoldable pub receive : List Bytes → Option Bytes
receive [] = none
receive ([] ∷ rest) = none
receive ((hdr0 ∷ nal) ∷ rest) =
    if hdr0 / 2 % 2 ^ 6 == 49 then collect_fragments [] ((hdr0 ∷ nal) ∷ rest) else some (hdr0 ∷ nal)

abbrev pub effective_mtu : ℕ → ℕ
effective_mtu mtu = if mtu == 0 then default_mtu else mtu
