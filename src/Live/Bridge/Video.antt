-- ===== src/Live/Bridge/Video.antt =====
-- Access units through onVideo (librtmp/srt_server.go).
use ggmpeg.Prelude.{
  ℕ, suc, ◌+◌, ◌-◌, ◌/◌, ◌%◌, ◌^◌, ◌≤◌, ◌<◌, ◌≡◌, refl, ap, ◌∙◌, ◌≢◌, inl, inr, Bool, true, false,
  Option, none, some, List, [], ◌∷◌, ◌++◌, append-nil, append_assoc, arith, ◌==◌, if◌then◌else◌,
  Bool-cases, Bytes, All, at,
}
use ggmpeg.Flv.{video}
use ggmpeg.Rtsp.H264.{avcc_from_nals}
use ggmpeg.Dash.Dcr.{build_avc_sequence_header}
use ggmpeg.Srt.Demux.{AccessUnit}
use ggmpeg.Live.{
  RoomEvent, set_video_header, set_audio_header, write_meta, reset, write, avc_tag, key_frame,
  inter_frame, avc_sequence_header, avc_nalu,
}
use ggmpeg.Live.Annexb.{split_annexb, join_annexb, IsUnit, split_annexb-join_annexb}
use ggmpeg.Live.Bridge.{
  Bridge, Sorted, sort_nal, sort_loop, newer, sequence_header, header_events, emit_header,
  picture_tag, picture_events, on_video,
}

-- The type of a NAL unit by its first byte.
abbrev pub HasType : ℕ → Bytes → Type 0
HasType k n = (n ≢ []) × (at n 0 % 2 ^ 5 ≡ k)

abbrev pub IsPicture : Bytes → Type 0
IsPicture n = (n ≢ []) × (at n 0 % 2 ^ 5 ≢ 7) × (at n 0 % 2 ^ 5 ≢ 8)

sort_nal-sps : (n : Bytes) (s : Sorted) → HasType 7 n → sort_nal n s ≡ record s { sps = some n }
unfolding sort_nal
sort_nal-sps [] s h = absurd (h.0 refl)
sort_nal-sps (x ∷ t) s (h, ht) = let e : (x % 2 ^ 5 == 7) ≡ true = ground arith in rw e refl

sort_nal-pps : (n : Bytes) (s : Sorted) → HasType 8 n → sort_nal n s ≡ record s { pps = some n }
unfolding sort_nal
sort_nal-pps [] s h = absurd (h.0 refl)
sort_nal-pps (x ∷ t) s (h, ht) =
    let other : (x % 2 ^ 5 == 7) ≡ false = ground arith in
    let e : (x % 2 ^ 5 == 8) ≡ true = ground arith in rw (other, e) refl

sort_loop-pictures :
    (ns : List Bytes) (s : Sorted)
    → All IsPicture ns
    → sort_loop ns s ≡ record s { pictures = s.pictures ++ ns }
unfolding sort_loop sort_nal
sort_loop-pictures [] s h = rw append-nil refl
sort_loop-pictures ([] ∷ ns) s h = absurd (h.0.0 refl)
sort_loop-pictures ((x ∷ t) ∷ ns) s ((h, h7, h8), hs) =
    let not_sps : (x % 2 ^ 5 == 7) ≡ false = ground arith in
    let not_pps : (x % 2 ^ 5 == 8) ≡ false = ground arith in
    rw (not_sps, not_pps)
      (sort_loop-pictures ns (record s { pictures = s.pictures ++ (x ∷ t) ∷ [] }) hs
        ∙ rw append_assoc refl)

split-au :
    (au : AccessUnit) (ns : List Bytes)
    → au.nal ≡ join_annexb ns
    → All IsUnit ns
    → split_annexb au.nal ≡ ns
split-au au ns h hu = ap split_annexb h ∙ split_annexb-join_annexb ns hu

-- What the units in front of the pictures are sorted to.
abbrev sorted : Option Bytes → Option Bytes → List Bytes → Sorted
sorted sps pps pictures = record { sps = sps; pps = pps; pictures = pictures }

sort_loop-append :
    (xs ys : List Bytes) (s : Sorted) → sort_loop (xs ++ ys) s ≡ sort_loop ys (sort_loop xs s)
unfolding sort_loop
sort_loop-append [] ys s = refl
sort_loop-append (x ∷ xs) ys s = sort_loop-append xs ys (sort_nal x s)

sort_sets :
    (before : List Bytes) (sps pps : Bytes) (ns : List Bytes)
    → All IsPicture before
    → HasType 7 sps
    → HasType 8 pps
    → All IsPicture ns
    → sort_loop (before ++ sps ∷ pps ∷ ns) (sorted none none [])
      ≡ sorted (some sps) (some pps) (before ++ ns)
unfolding sort_loop
sort_sets before sps pps ns hb hs hp hn =
    rw
      (
        sort_loop-append before (sps ∷ pps ∷ ns) (sorted none none []),
        sort_loop-pictures before (sorted none none []) hb,
        sort_nal-sps sps (sorted none none before) hs,
        sort_nal-pps pps (sorted (some sps) none before) hp,
        sort_loop-pictures ns (sorted (some sps) (some pps) before) hn,
      )
      refl

-- An access unit with an SPS and a PPS next to each other among its pictures, as the first one of a
-- bridge, in NAL units that hold no start code and do not end with a zero: the configuration of the
-- two sets goes out, as the room's header and to the cache, then a reset for a key frame, then one tag
-- with the pictures, its time the decoding time and its offset the time of presentation less it, in
-- milliseconds; and the header counts as sent. There is one picture at least, and every unit of a
-- type other than 7 and 8 is one. The time of presentation is not before the decoding time, and below
-- 2 ^ 34.
pub on_video_first :
    (br : Bridge) (au : AccessUnit) (before : List Bytes) (sps pps : Bytes) (behind : List Bytes)
    (n : Bytes) (ns : List Bytes)
    → br.emitted_video ≡ false
    → au.nal ≡ join_annexb (before ++ sps ∷ pps ∷ behind)
    → All IsUnit (before ++ sps ∷ pps ∷ behind)
    → All IsPicture before
    → HasType 7 sps
    → HasType 8 pps
    → All IsPicture behind
    → before ++ behind ≡ n ∷ ns
    → au.dts ≤ au.pts
    → au.pts < 2 ^ 34
    → ((on_video br au).0.emitted_video ≡ true)
      × ((on_video br au).1
          ≡ set_video_header
              (avc_tag 0 key_frame avc_sequence_header 0 (build_avc_sequence_header sps pps))
            ∷ write_meta (
                video
                  (avc_tag 0 key_frame avc_sequence_header 0 (build_avc_sequence_header sps pps)))
            ∷ ((if au.key then reset ∷ [] else [])
                ++ write (
                    video (
                      avc_tag
                        (au.dts / 90)
                        (if au.key then key_frame else inter_frame)
                        avc_nalu
                        ((au.pts - au.dts) / 90)
                        (avcc_from_nals (n ∷ ns))))
                  ∷ []))
unfolding on_video emit_header header_events newer sequence_header picture_events picture_tag
on_video_first br au before sps pps behind n ns hb ha hu hf hs hp hn hc hd hw =
    let units = split-au au (before ++ sps ∷ pps ∷ behind) ha hu in
    let sets = sort_sets before sps pps behind hf hs hp hn in
    let time : au.dts / 90 % 2 ^ 32 ≡ au.dts / 90 = omega arith in
    let offset : (au.pts + 2 ^ 64 - au.dts) % 2 ^ 64 / 90 % 2 ^ 32 ≡ (au.pts - au.dts) / 90 =
      omega arith in
    (rw (units, sets, hb) refl, rw (units, sets, hc, hb, time, offset) refl)

-- The bridge for the access units of a stream, in order.
unfoldable pub on_videos : Bridge → List AccessUnit → Bridge × List RoomEvent
on_videos br [] = (br, [])
on_videos br (au ∷ aus) =
    let first = on_video br au in let rest = on_videos first.0 aus in (rest.0, first.1 ++ rest.1)

-- How often the events set a header of the room for video.
unfoldable pub headers : List RoomEvent → ℕ
headers [] = 0
headers (set_video_header t ∷ es) = suc (headers es)
headers (set_audio_header t ∷ es) = headers es
headers (write_meta t ∷ es) = headers es
headers (reset ∷ es) = headers es
headers (write t ∷ es) = headers es

headers-append : (xs ys : List RoomEvent) → headers (xs ++ ys) ≡ headers xs + headers ys
unfolding headers
headers-append [] ys = omega arith
headers-append (set_video_header t ∷ xs) ys = omega (arith, headers-append xs ys)
headers-append (set_audio_header t ∷ xs) ys = headers-append xs ys
headers-append (write_meta t ∷ xs) ys = headers-append xs ys
headers-append (reset ∷ xs) ys = headers-append xs ys
headers-append (write t ∷ xs) ys = headers-append xs ys

headers-picture_events : (au : AccessUnit) (ns : List Bytes) → headers (picture_events au ns) ≡ 0
unfolding headers picture_events
headers-picture_events au [] = refl
headers-picture_events au (n ∷ ns) = elim (Bool-cases au.key) [
  | inl e ↦ rw e refl
  | inr e ↦ rw e refl
]

abbrev pub sent : Bool → ℕ
sent b = if b then 1 else 0

header_events_lem :
    (br : Bridge) (sps pps : Option Bytes)
    → br.emitted_video ≡ false
    → headers (header_events br sps pps).1 ≡ sent (header_events br sps pps).0.emitted_video
unfolding header_events headers
header_events_lem br none pps h = rw h refl
header_events_lem br (some sps) none h = rw h refl
header_events_lem br (some sps) (some pps) h = refl

emit_header_lem :
    (br : Bridge) (s : Sorted)
    → headers (emit_header br s).1 + sent br.emitted_video ≡ sent (emit_header br s).0.emitted_video
unfolding emit_header headers
emit_header_lem br s =
    let sps = newer s.sps br.cached_sps in
    let pps = newer s.pps br.cached_pps in
    elim (Bool-cases br.emitted_video) [
      | inl e ↦ rw e refl
      | inr e ↦
          let now =
            header_events_lem (record br { cached_sps = sps; cached_pps = pps }) sps pps e in
          let now' = rw e at now in rw e (omega (arith, now'))
    ]

on_video_lem :
    (br : Bridge) (au : AccessUnit)
    → headers (on_video br au).1 + sent br.emitted_video ≡ sent (on_video br au).0.emitted_video
unfolding on_video
on_video_lem br au =
    let s = sort_loop (split_annexb au.nal) (sorted none none []) in
    rw
      (
        headers-append (emit_header br s).1 (picture_events au s.pictures),
        headers-picture_events au s.pictures,
      )
      (let none_more : headers (emit_header br s).1 + 0 + sent br.emitted_video
            ≡ headers (emit_header br s).1 + sent br.emitted_video =
          omega arith in
        none_more ∙ emit_header_lem br s)

-- Over any access units, the video headers that go out and the one that counts as sent before make
-- what counts as sent afterwards: a bridge sets the room's header once at most, and says so.
pub headers-on_videos :
    (br : Bridge) (aus : List AccessUnit)
    → headers (on_videos br aus).1 + sent br.emitted_video ≡ sent (on_videos br aus).0.emitted_video
unfolding on_videos headers
headers-on_videos br [] = omega arith
headers-on_videos br (au ∷ aus) =
    let first = on_video_lem br au in
    let ih = headers-on_videos (on_video br au).0 aus in
    rw (headers-append (on_video br au).1 (on_videos (on_video br au).0 aus).1)
      (omega (arith, first, ih))
