-- ===== src/Mpeg/Frame.antt =====
-- libhls/hls.go: the loop that writes one PES in packets.
use ggmpeg.Prelude.{
  ℕ, zero, suc, ◌+◌, ◌-◌, ◌*◌, ◌/◌, ◌%◌, ◌^◌, ◌≤◌, ◌<◌, ◌≡◌, refl, sym, ap, ◌∙◌, ◌≢◌, ◌↔◌, ◌⊎◌, inl,
  inr, Bool, true, false, not, ◌&&◌, ◌||◌, Option, none, some, List, [], ◌∷◌, ◌++◌, append-nil,
  append_assoc, arith, ltb, leb, ◌==◌, if◌then◌else◌, ltb→lt, lt→ltb, leb→le, le→leb, leb-false→lt,
  ltb-false→le, ==_iff, tests, Bool-cases, Option-cases, length, get_elem?, set, length-append,
  get_or, take, drop, replicate, take-append-drop, length-take, length-drop, length-replicate,
  take-append_left, drop-append_left, take_whole, drop_whole, drop-append_past, take-append_past,
  Bytes, IsByte, All, All-append, at, has_bit, put_be16, put_be24, put_be32, be16_at, be24_at,
  be32_at,
}
use ggmpeg.Mpeg.Pes.{Pes}
use ggmpeg.Mpeg.Ts.{new_ts}
use ggmpeg.Mpeg.Mux.{Psi, section, pes, Written, mux}
pub mod Packet
pub mod Chunks
pub mod Demux
pub mod Arrival

-- On fuel. None is a packet that fails: the segmenter then leaves the tag, and what is written of it
-- stays in the file.
unfoldable pub write_frame : ℕ → Bool → Bool → ℕ → (ℕ → ℕ) → Psi → ℕ → Option Bytes
write_frame zero key first pid counters psi dts = none
write_frame (suc n) key first pid counters psi dts =
    let (ts, counters1) = new_ts pid counters first in
    let w = mux (key && first) dts psi ts in
    let rest = write_frame n key false pid counters1 w.psi dts in
    if w.failed
    then none
    else if w.finish
    then some w.bytes
    else (elim rest [ some b ↦ some (w.bytes ++ b) | none ↦ none ])
