-- ===== src/Srt/Demux/Panics.antt =====
-- When parsePMT of libsrt/tsdemux.go panics.
use ggmpeg.Prelude.{◌+◌, ◌≤◌, ◌<◌, ◌≡◌, ◌↔◌, none, arith, length, Bytes, at}
use ggmpeg.Srt.Demux.{Demuxer, parse_pmt}

-- parsePMT panics exactly for a payload of at least two bytes that ends before the section that its
-- pointer field names.
pub parse_pmt_panics :
    (payload : Bytes) (d : Demuxer)
    → parse_pmt payload d ≡ none ↔ (2 ≤ length payload) × (length payload < 1 + at payload 0)
unfolding parse_pmt
parse_pmt_panics payload d = (λ e. ground arith, λ (a, b). ground arith)
