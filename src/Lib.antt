-- ===== src/Lib.antt =====
-- GGmpeg is a live media server in Go: it takes streams over RTMP, RTSP and SRT, keeps them as
-- FLV tags in rooms, and hands them on. This library models the wire formats and receivers that
-- the server trusts on data from a peer, and proves what they do.
--
-- The parts, with the files of the repository that they model:
--   * Srt: libsrt. Packet (packet.go) is the 16 byte header; Control (control.go) the ACK and NAK
--     bodies and the arithmetic of sequence numbers; Handshake (handshake.go) the handshake body;
--     Listener (listener.go) the sessions, the handshake exchange and the receiver of data
--     packets. The listener parses with Packet and Handshake and answers with Control. Demux
--     (tsdemux.go) takes the payloads apart as a transport stream, such as Mpeg writes.
--   * Rtsp: librtsp. Rtp (rtp.go, rtp_unpack.go) packs and parses RTP; H264 (h264.go), Hevc
--     (hevc.go) and Aac (aac.go, rtp_unpack.go) split units into payloads; Reassembler
--     (rtp_unpack.go) joins the payloads of H.264 into units again.
--   * Flv: libflv (flv.go, tag.go, audio.go, video.go), the tags that the other parts carry.
--   * Avc: libavc (avc.go), from length-prefixed H.264 units to the byte stream format.
--   * Mp4: libmp4. Box (box.go), Init (init_segment.go, init_segment_hevc.go) and Media
--     (media_segment.go) write fragmented MP4; Avcc relates the decoder configuration to Avc.
--   * Mpeg: libmpeg. Pes (pes.go) and Ts (ts.go) are a PES and a transport packet, Mux (ts.go)
--     writes one packet, Psi (psi.go) is the two tables, Crc (crc32.go) their checksum; Frame is
--     the loop of libhls/hls.go that writes a PES in packets.
--   * Aac: libaac (aac.go), the AAC configuration and the ADTS header.
--   * Hls: libhls. Lift (hls.go, audio_cache.go) makes a PES of a tag; align.go is the time
--     stamps of audio frames; Tables (hls.go) is the tables that every segment starts with, as
--     Demux of Srt reads them.
--   * Dash: libdash (dash.go). Bits is the reader of bits, Sps the dimensions in a parameter set,
--     Dcr the decoder configuration records, also as librtmp/rtsp_server.go reads and
--     librtmp/rtsp_ingest.go writes them.
--   * Amf: libamf (amf0.go), the values of AMF0 with their encoding and decoding.
--   * Rtmp: librtmp. Handshake (handshake.go) is the opening exchange; Chunk (chunk.go) parses
--     and sends chunks with the state of each chunk stream; Message (message.go, audio.go,
--     video.go) assembles messages from chunks, splits them, and keeps the acknowledgement
--     window; Control (control_message.go) is the six control messages and what they do to the
--     connection; Aggregate (aggregate_message.go) takes an aggregate message apart into tags as
--     Flv writes them.
--   * Live: the media paths of the endpoints in librtmp. Relay is RTSP (rtsp_server.go out of a
--     room, rtsp_ingest.go into one), Annexb and Bridge are SRT into a room (srt_server.go); they
--     use the packets of Rtsp, the tags of Flv, the access units of Srt/Demux and the records of
--     Dash/Dcr. Loop goes from a room through Hls, Mpeg and Srt/Demux into a room again.
--   * Prelude: bytes, lists and the lemmas that the parts share.
--
-- A definition carries the name of the Go function or type in lower case with underscores:
-- `ParseHeader` is `parse_header`, `Listener.handleHandshake` is `handle_handshake`. A method
-- that changes its receiver becomes a function from the old state to the new one and to what is
-- sent; an error is `none` or a constructor of the result type, and a panic is a constructor of
-- its own. Bytes are lists of numbers, and where a theorem needs them below 256 it says so. Masks
-- and shifts are written as remainders, products and quotients by powers of two; a sum or
-- difference of uint32 keeps its `% 2 ^ 32`. A slice or an index of the source that cannot be out
-- of range reads 0 there.
--
-- Loops are structural or run on fuel. The fuel is the length of the bytes that are read or sent,
-- and one where the last round only stops: each round takes at least one byte. The loop over
-- chunks of `ParseMessage` takes its fuel as an argument, since only the connection bounds its
-- rounds.
--
-- Parameters stand for what is outside: the clock and the cookie of the SRT listener, the
-- connection that RTMP reads from (Rtmp/Reader, an interface with the laws of reading a stream of
-- bytes, and an implementation on a list), the outcome of sending an acknowledgement, the script
-- data of a tag, the handling of the sub-messages of an aggregate, the reader of AMF (Amf/Decode,
-- an interface with laws), the conversion of integers to float64, and for the RTMP handshake
-- HMAC-SHA256, the time and the random bytes.
--
-- Not modelled: sockets, goroutines and locks; rooms and the servers around them; the commands
-- that use AMF; the text of SDP and RTSP and its dialogue; the parsers of packets and PES of
-- libmpeg; the segmenters of HLS and DASH around their writers, which work with files, clocks and
-- text; the encryption of SRT, which calls the standard library.
pub mod Prelude
pub mod Aac
pub mod Amf
pub mod Avc
pub mod Dash
pub mod Flv
pub mod Hls
pub mod Live
pub mod Mp4
pub mod Mpeg
pub mod Rtmp
pub mod Rtsp
pub mod Srt
