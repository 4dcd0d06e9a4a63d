-- ===== src/Live/Bridge/Audio.antt =====
-- An AAC frame with its ADTS header (libaac/aac.go) through onAudio (librtmp/srt_server.go).
use ggmpeg.Prelude.{
  ◌+◌, ◌-◌, ◌*◌, ◌/◌, ◌%◌, ◌^◌, ◌≤◌, ◌<◌, ◌≡◌, refl, inl, inr, true, some, [], ◌∷◌, ◌++◌, arith,
  if◌then◌else◌, Bool-cases, length, drop, Bytes,
}
use ggmpeg.Flv.{audio}
use ggmpeg.Aac.{AacHeader, parse_aac_header, adts}
use ggmpeg.Srt.Demux.{AudioFrame}
use ggmpeg.Live.{set_audio_header, write_meta, write, aac_tag, aac_sequence_header, aac_raw}
use ggmpeg.Live.Bridge.{Bridge, config_of, channels_of, is_adts, on_audio}

-- The fields fit into the header, and the channels into the part of it that arrives.
pub record IsHeader (ah : AacHeader) : Type 0 where
  pub some_type : 0 < ah.object_type
  pub type_width : ah.object_type ≤ 4
  pub rate_width : ah.sample_rate < 2 ^ 4
  pub channel_width : ah.channel < 4

-- The third byte holds the profile and the rate, the fourth one the channels.
config-adts :
    (ah : AacHeader) (frame rest : Bytes)
    → IsHeader ah
    → length frame + 7 < 2 ^ 13
    → parse_aac_header (config_of (adts ah frame ++ rest)) ≡ some ah
unfolding parse_aac_header config_of adts
config-adts ah frame rest v hl =
    let ty = v.some_type in
    let tw = v.type_width in
    let rw' = v.rate_width in
    let cw = v.channel_width in
    let b2 = (ah.object_type + 255) % 256 * 2 ^ 6 % 256 + ah.sample_rate * 2 ^ 2 in
    let b3 = ah.channel * 2 ^ 6 % 256 + (length frame + 7) % 2 ^ 16 * 2 ^ 3 % 2 ^ 16 / 2 ^ 14 in
    let profile : b2 / 2 ^ 6 % 2 ^ 2 ≡ ah.object_type - 1 = omega arith in
    let index : b2 / 2 ^ 2 % 2 ^ 4 ≡ ah.sample_rate = omega arith in
    let channels : b2 % 2 * 2 ^ 2 + b3 / 2 ^ 6 % 2 ^ 2 ≡ ah.channel = omega arith in
    let c0 = (ah.object_type - 1 + 1) * 2 ^ 3 % 256 + ah.sample_rate / 2 % 2 ^ 3 in
    let c1 = ah.sample_rate % 2 * 2 ^ 7 + ah.channel % 2 ^ 4 * 2 ^ 3 in
    let kind : c0 / 2 ^ 3 ≡ ah.object_type = omega arith in
    let rate : c0 % 2 ^ 3 * 2 + c1 / 2 ^ 7 ≡ ah.sample_rate = omega arith in
    let chans : c1 / 2 ^ 3 % 2 ^ 4 ≡ ah.channel = omega arith in
    rw (profile, index, channels, kind, rate, chans) refl

channels-adts :
    (ah : AacHeader) (frame rest : Bytes)
    → IsHeader ah
    → length frame + 7 < 2 ^ 13
    → channels_of (adts ah frame ++ rest) ≡ ah.channel
unfolding channels_of adts
channels-adts ah frame rest v hl =
    let ty = v.some_type in
    let tw = v.type_width in let rw' = v.rate_width in let cw = v.channel_width in omega arith

is_adts-adts : (ah : AacHeader) (frame rest : Bytes) → is_adts (adts ah frame ++ rest) ≡ true
unfolding is_adts adts
is_adts-adts ah frame rest = ground arith

header_behind : (ah : AacHeader) (frame rest : Bytes) → drop 7 (adts ah frame ++ rest) ≡ rest
unfolding adts
header_behind ah frame rest = refl

-- An AAC frame behind the ADTS header that Adts makes of a configuration, with an object type of 1
-- to 4, less than four channels and a length that fits 13 bits, is written to the room as one tag
-- with the frame alone, its time in milliseconds. If no audio header went out yet, one with a
-- configuration that parses to this one goes out in front of it, once as the room's header and once
-- to the cache; the next frame finds it sent.
pub on_audio-adts :
    (br : Bridge) (af : AudioFrame) (ah : AacHeader) (frame : Bytes)
    → IsHeader ah
    → length frame + 7 < 2 ^ 13
    → af.payload ≡ adts ah frame ++ frame
    → (config : Bytes) × (parse_aac_header config ≡ some ah)
      × ((on_audio br af).0.emitted_audio ≡ true)
      × ((on_audio br af).1
          ≡ (if br.emitted_audio
              then []
              else set_audio_header (aac_tag 0 ah.channel aac_sequence_header config)
                ∷ write_meta (audio (aac_tag 0 ah.channel aac_sequence_header config))
                ∷ [])
            ++ write (audio (aac_tag (af.pts / 90 % 2 ^ 32) ah.channel aac_raw frame)) ∷ [])
unfolding on_audio
on_audio-adts br af ah frame v hl hp =
    let chans = channels-adts ah frame frame v hl in
    let sync = is_adts-adts ah frame frame in
    let stripped = header_behind ah frame frame in
    elim (Bool-cases br.emitted_audio) [
      | inl e ↦ (
        config_of af.payload,
        rw hp (config-adts ah frame frame v hl),
        rw (hp, sync, e) refl,
        rw (hp, sync, chans, stripped, e) refl,
      )
      | inr e ↦ (
        config_of af.payload,
        rw hp (config-adts ah frame frame v hl),
        rw (hp, sync, e) refl,
        rw (hp, sync, chans, stripped, e) refl,
      )
    ]
