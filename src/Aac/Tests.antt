-- ===== src/Aac/Tests.antt =====
-- AAC-LC at 44.1 kHz in stereo.
use ggmpeg.Prelude.{◌≡◌, refl, some, [], ◌∷◌, arith, replicate, Bytes, IsByte, All}
use ggmpeg.Aac.{AacHeader, parse_aac_header, adts}
use ggmpeg.Aac.Adts.{read_adts, read_adts-adts}

abbrev stereo : AacHeader
stereo = record { object_type = 2; sample_rate = 4; channel = 2 }

abbrev stereo_config : Bytes
stereo_config = 0x12 ∷ 0x10 ∷ []

stereo_config-IsByte : All IsByte stereo_config
stereo_config-IsByte = ground arith

parse_stereo : parse_aac_header stereo_config ≡ some stereo
unfolding parse_aac_header
parse_stereo = refl

abbrev payload : Bytes
payload = replicate 300 0x21

read_adts-adts_example : read_adts (adts stereo payload) ≡ some (1, 4, 2, 307)
read_adts-adts_example =
    read_adts-adts stereo_config payload stereo parse_stereo stereo_config-IsByte (omega arith)
      (omega arith) (omega arith) (omega arith)

-- A configuration of six channels arrives as two.
six_channels_cut : read_adts (adts (record stereo { channel = 6 }) payload) ≡ some (1, 4, 2, 307)
unfolding read_adts adts
six_channels_cut = refl
