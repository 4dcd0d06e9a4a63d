-- ===== src/Live/Relay/Video.antt =====
-- A video tag from one room into another over RTSP (librtmp/rtsp_server.go, librtmp/rtsp_ingest.go).
use ggmpeg.Prelude.{
  ℕ, ◌+◌, ◌*◌, ◌/◌, ◌%◌, ◌^◌, ◌<◌, ◌≡◌, refl, ap, ◌∙◌, inl, inr, Bool, true, false, Option, some,
  List, [], ◌∷◌, ◌++◌, append-nil, arith, ◌==◌, if◌then◌else◌, Option-cases, Bytes, All,
}
use ggmpeg.Flv.{VideoTag, video, flv_video_avc}
use ggmpeg.Rtsp.H264.{default_mtu, pack_nal, split_avcc, avcc_from_nals, contains_keyframe}
use ggmpeg.Rtsp.H264.Avcc.{FitsPrefix, split_avcc-avcc_from_nals}
use ggmpeg.Rtsp.Rtp.{RtpPacker, pack, RtpPacket}
use ggmpeg.Rtsp.Rtp.RoundTrip.{parse_rtp-pack}
use ggmpeg.Rtsp.Reassembler.{Reassembler, absorb, flush, push_payload, push}
use ggmpeg.Rtsp.Reassembler.RoundTrip.{packet, receive_unit}
use ggmpeg.Rtsp.Reassembler.Units.{IsNal, pack_unit, pack_nal_head, receive_unit-pack_unit}
use ggmpeg.Live.{RoomEvent, reset, write, avc_tag, key_frame, inter_frame, avc_nalu}
use ggmpeg.Live.Relay.{
  mark_pieces, mark_nals, pack_all, send_video, Ingest, video_events, handle_video_rtp, is_channel,
  route, handle_interleaved,
}

-- The ingest for packets that arrive on one channel, in order.
unfoldable pub handle_all : Ingest → ℕ → List Bytes → Ingest × List RoomEvent
handle_all i channel [] = (i, [])
handle_all i channel (b ∷ bs) =
    let first = handle_interleaved i channel b in
    let rest = handle_all first.0 channel bs in (rest.0, first.1 ++ rest.1)

-- The reassembler looks at the time, the marker and the payload alone.
push_payload_lem :
    (r : Reassembler) (pkt : RtpPacket) (b : Bytes)
    → push_payload r pkt b ≡ push_payload r (packet pkt.timestamp pkt.marker pkt.payload) b
unfolding push_payload
push_payload_lem r pkt [] = refl
push_payload_lem r pkt (hdr ∷ tail) = refl

push_lem :
    (r : Reassembler) (pkt : RtpPacket)
    → push r pkt ≡ push r (packet pkt.timestamp pkt.marker pkt.payload)
unfolding push
push_lem r pkt = push_payload_lem r pkt pkt.payload

flush_quiet : (r : Reassembler) → (flush r false).1 ≡ []
unfolding flush
flush_quiet r = ground arith

-- A packet without the marker ends no access unit.
push_quiet : (r : Reassembler) (ts : ℕ) (p : Bytes) → (push r (packet ts false p)).1 ≡ []
unfolding push
push_quiet r ts [] = unfold push_payload in refl
push_quiet r ts (hdr ∷ tail) =
    elim (Option-cases (absorb (record r { pending_ts = ts }) hdr tail)) [
      | inl e ↦ rw (e, push_payload) refl
      | inr (r', e) ↦ rw (e, push_payload) (flush_quiet r')
    ]

-- The fields of a packer fit their places in the header.
pub record IsPacker (p : RtpPacker) : Type 0 where
  pub type_width : p.payload_type < 2 ^ 7
  pub seq_width : p.seq < 2 ^ 16
  pub ssrc_width : p.ssrc < 2 ^ 32

pack-IsPacker :
    (p : RtpPacker) (marker : Bool) (ts : ℕ) (piece : Bytes)
    → IsPacker p
    → IsPacker (pack p marker ts piece).1
unfolding pack
pack-IsPacker p marker ts piece v = omega arith

-- What one packet for the video does.
abbrev pushed : Ingest → Reassembler × List Bytes × ℕ → Ingest × List RoomEvent
pushed i u = (record i { video_ra = u.0 }, video_events u.1 u.2)

is_video : (c : Option ℕ) (channel : ℕ) → c ≡ some channel → is_channel c channel ≡ true
unfolding is_channel
is_video c channel h = let same : (channel == channel) ≡ true = ground arith in rw h same

handle_step :
    (i : Ingest) (channel : ℕ) (p : RtpPacker) (marker : Bool) (ts : ℕ) (piece : Bytes)
    → i.video_ch ≡ some channel
    → IsPacker p
    → ts < 2 ^ 32
    → handle_interleaved i channel (pack p marker ts piece).0
      ≡ pushed i (push i.video_ra (packet ts marker piece))
unfolding handle_interleaved route handle_video_rtp
handle_step i channel p marker ts piece hc v ht =
    let arrived = (parse_rtp-pack p marker ts piece v.type_width v.seq_width v.ssrc_width ht).0 in
    let pkt : RtpPacket = record {
      payload_type = p.payload_type;
      sequence_num = p.seq;
      timestamp = ts;
      ssrc = p.ssrc;
      marker = marker;
      payload = piece;
    } in
    rw (arrived, handle_interleaved)
      (rw (is_video i.video_ch channel hc) (ap (pushed i) (push_lem i.video_ra pkt)))

mark-append :
    (xs : List Bytes) (y : Bytes) (ys : List Bytes)
    → mark_pieces false xs ++ mark_pieces true (y ∷ ys) ≡ mark_pieces true (xs ++ y ∷ ys)
unfolding mark_pieces
mark-append [] y ys = refl
mark-append (x ∷ []) y ys = refl
mark-append (x ∷ x' ∷ xs) y ys = ap (λ t. (false, x) ∷ t) (mark-append (x' ∷ xs) y ys)

mark_nals-pack_unit :
    (n : Bytes) (ns : List Bytes)
    → All IsNal (n ∷ ns)
    → mark_nals pack_nal (n ∷ ns) ≡ mark_pieces true (pack_unit default_mtu (n ∷ ns))
unfolding mark_nals pack_unit
mark_nals-pack_unit n [] h = rw append-nil
mark_nals-pack_unit n (m ∷ ns) h =
    let (x, xs, e) = pack_nal_head m default_mtu h.1.0 (omega arith) in
    rw (mark_nals-pack_unit m ns h.1, e)
      (mark-append (pack_nal n default_mtu) x (xs ++ pack_unit default_mtu ns))

handle_all-pieces :
    (i : Ingest) (channel : ℕ) (p : RtpPacker) (ts : ℕ) (x : Bytes) (xs : List Bytes)
    → i.video_ch ≡ some channel
    → IsPacker p
    → ts < 2 ^ 32
    → handle_all i channel (pack_all p ts (mark_pieces true (x ∷ xs))).0
      ≡ pushed i (receive_unit i.video_ra ts (x ∷ xs))
unfolding handle_all pack_all mark_pieces receive_unit video_events
handle_all-pieces i channel p ts x [] hc v ht =
    rw (handle_step i channel p true ts x hc v ht, append-nil) refl
handle_all-pieces i channel p ts x (y ∷ ys) hc v ht =
    let i' = record i { video_ra = (push i.video_ra (packet ts false x)).0 } in
    let ih =
      handle_all-pieces i' channel (pack p false ts x).1 ts y ys hc (pack-IsPacker p false ts x v)
        ht in
    rw (handle_step i channel p false ts x hc v ht, push_quiet i.video_ra ts x) ih

send_video_lem :
    (p : RtpPacker) (tag : VideoTag) (n : Bytes) (ns : List Bytes)
    → tag.codec_id ≡ flv_video_avc
    → tag.avc_packet_type ≡ avc_nalu
    → tag.video_data ≡ avcc_from_nals (n ∷ ns)
    → All IsNal (n ∷ ns)
    → All FitsPrefix (n ∷ ns)
    → (tag.base.timestamp + tag.cts) * 90 < 2 ^ 32
    → send_video p tag
      ≡ pack_all p
          ((tag.base.timestamp + tag.cts) * 90)
          (mark_pieces true (pack_unit default_mtu (n ∷ ns)))
unfolding send_video
send_video_lem p tag n ns hk ht hd hn hl hs =
    let avc : (tag.codec_id == flv_video_avc) ≡ true = ground arith in
    let nalu : (tag.avc_packet_type == avc_nalu) ≡ true = ground arith in
    let clock : (tag.base.timestamp + tag.cts) % 2 ^ 32 * 90 % 2 ^ 32
        ≡ (tag.base.timestamp + tag.cts) * 90 =
      omega arith in
    let units : split_avcc tag.video_data ≡ n ∷ ns =
      ap split_avcc hd ∙ split_avcc-avcc_from_nals (n ∷ ns) hl in
    rw (avc, nalu, clock, units)
      (ap (pack_all p ((tag.base.timestamp + tag.cts) * 90)) (mark_nals-pack_unit n ns hn))

pieces_of_unit :
    (n : Bytes) (ns : List Bytes)
    → All IsNal (n ∷ ns)
    → (x : Bytes) × (xs : List Bytes) × (pack_unit default_mtu (n ∷ ns) ≡ x ∷ xs)
unfolding pack_unit
pieces_of_unit n ns h =
    let (x, xs, e) = pack_nal_head n default_mtu h.0 (omega arith) in
    (x, xs ++ pack_unit default_mtu ns, rw e refl)

-- The packets of an access unit at a reassembler with nothing pending.
handle_all-unit :
    (i : Ingest) (channel : ℕ) (p : RtpPacker) (ts : ℕ) (n : Bytes) (ns : List Bytes)
    → i.video_ch ≡ some channel
    → i.video_ra.fu_buf ≡ []
    → i.video_ra.pending ≡ []
    → IsPacker p
    → ts < 2 ^ 32
    → All IsNal (n ∷ ns)
    → (handle_all i channel (pack_all p ts (mark_pieces true (pack_unit default_mtu (n ∷ ns)))).0).1
      ≡ video_events (n ∷ ns) ts
handle_all-unit i channel p ts n ns hc hf hp v ht hn =
    let (x, xs, e) = pieces_of_unit n ns hn in
    let unit = receive_unit-pack_unit i.video_ra ts default_mtu n ns hn (omega arith) hf hp in
    let taken = rw e at unit in
    let ran = handle_all-pieces i channel p ts x xs hc v ht in
    rw e (ap (λ (o : Ingest × List RoomEvent). o.1) (ran ∙ ap (pushed i) taken))

-- A video tag that is taken from one room as H.264 and sent by RTSP, in packets to the channel that
-- the ingest has for video, with nothing pending there, is written to the other room as one tag
-- with the same data, in front of it a reset if there is an IDR unit, and nothing else is done. Its
-- time is that of the first tag and its composition offset together, as long as 90 times that fits
-- 32 bits. The data holds NAL units of types 1 to 23, one at least, and the packer's fields fit.
pub handle_all-send_video :
    (i : Ingest) (channel : ℕ) (p : RtpPacker) (tag : VideoTag) (n : Bytes) (ns : List Bytes)
    → i.video_ch ≡ some channel
    → i.video_ra.fu_buf ≡ []
    → i.video_ra.pending ≡ []
    → IsPacker p
    → tag.codec_id ≡ flv_video_avc
    → tag.avc_packet_type ≡ avc_nalu
    → tag.video_data ≡ avcc_from_nals (n ∷ ns)
    → All IsNal (n ∷ ns)
    → All FitsPrefix (n ∷ ns)
    → (tag.base.timestamp + tag.cts) * 90 < 2 ^ 32
    → (handle_all i channel (send_video p tag).0).1
      ≡ (if contains_keyframe (n ∷ ns) then reset ∷ [] else [])
        ++ write (
            video (
              avc_tag
                (tag.base.timestamp + tag.cts)
                (if contains_keyframe (n ∷ ns) then key_frame else inter_frame)
                avc_nalu
                0
                tag.video_data))
          ∷ []
unfolding video_events
handle_all-send_video i channel p tag n ns hc hf hp v hk ht hd hn hl hs =
    let back : (tag.base.timestamp + tag.cts) * 90 / 90 ≡ tag.base.timestamp + tag.cts =
      omega arith in
    let unit =
      handle_all-unit i channel p ((tag.base.timestamp + tag.cts) * 90) n ns hc hf hp v hs hn in
    let sent =
      ap (λ (q : List Bytes × RtpPacker). (handle_all i channel q.0).1)
        (send_video_lem p tag n ns hk ht hd hn hl hs) in
    sent ∙ unit ∙ rw (back, hd) refl
