-- ===== src/Audio/Convert.antt =====
-- `ConvertAudioChunk` of utils/audio/audio.go, the two switches over formats that it calls, and the
-- wrapper `ResamplePCMBytes` of utils/audio/resample_cgo.go.
-- g711, libopus and libsamplerate are not code of the repository: they are the fields of `Codecs`.
-- A chunk's data pointer is the slice that it points to; the function reads it and replaces it.
pub mod Laws
use interact_kit_sdk.Prelude.{
  ℕ, ◌*◌, ◌/◌, ◌%◌, Bool, true, false, not, ◌&&◌, ◌||◌, Option, none, some, [], ltb, ◌==◌,
  if◌then◌else◌, length,
}
use interact_kit_sdk.Audio.Bytes.{Bytes}
use interact_kit_sdk.Audio.Channels.{convert_channels}
use interact_kit_sdk.Audio.Wav.{
  Result, ok, err, ◌>>=◌, odd_length, empty_pcm, bad_channels, channel_mismatch, unsupported_format,
  codec_unavailable, codec_failed, empty_opus, resample_failed, bad_sample_rate,
}

pub data Format : Type 0 where
  pcm ulaw alaw opus : Format

unfoldable pub format_eq : Format → Format → Bool
format_eq pcm pcm = true
format_eq ulaw ulaw = true
format_eq alaw alaw = true
format_eq opus opus = true
format_eq _ _ = false

pub record AudioChunk : Type 0 where
  pub samples : Bytes
  pub sample_rate : ℕ
  pub channels : ℕ
  pub format : Format
  pub timestamp : ℕ

-- The libraries behind the conversion. `none` of the last four is a C call that reports failure;
-- the pools hand out a fresh or a reset codec, so a codec is a function of its configuration.
pub record Codecs : Type 0 where
  pub encode_ulaw : Bytes → Bytes
  pub decode_ulaw : Bytes → Bytes
  pub encode_alaw : Bytes → Bytes
  pub decode_alaw : Bytes → Bytes
  pub new_opus : ℕ → ℕ → Bool
  pub encode_opus : ℕ → ℕ → Bytes → Option Bytes
  pub decode_opus : ℕ → ℕ → Bytes → Option Bytes
  pub new_resampler : ℕ → ℕ → ℕ → Bool
  pub output_len : ℕ → ℕ → ℕ → ℕ
  pub process : ℕ → ℕ → ℕ → Bytes → Option Bytes

abbrev pub or_fail : Option Bytes → Result Bytes → Result Bytes
or_fail none e = e
or_fail (some a) e = ok a

unfoldable pub validate_pcm_data : Bytes → ℕ → Result (Unit {0})
validate_pcm_data data' num_channels =
    if not (length data' % 2 == 0)
    then err odd_length
    else if length data' == 0
    then err empty_pcm
    else if num_channels == 0
    then err bad_channels
    else if not (length data' % (2 * num_channels) == 0)
    then err channel_mismatch
    else ok tt

unfoldable pub pcm_bytes_to_ulaw : Codecs → Bytes → Result Bytes
pcm_bytes_to_ulaw k data' =
    if not (length data' % 2 == 0) then err odd_length else ok (k.encode_ulaw data')

unfoldable pub pcm_bytes_to_alaw : Codecs → Bytes → Result Bytes
pcm_bytes_to_alaw k data' =
    if not (length data' % 2 == 0) then err odd_length else ok (k.encode_alaw data')

unfoldable pub pcm_bytes_to_opus : Codecs → Bytes → ℕ → ℕ → Result Bytes
unfolding validate_pcm_data
pcm_bytes_to_opus k data' sample_rate channels = do
  _ ← validate_pcm_data data' channels
  if not (k.new_opus sample_rate channels)
      then err codec_unavailable
      else or_fail (k.encode_opus sample_rate channels data') (err codec_failed)

unfoldable pub opus_bytes_to_pcm : Codecs → Bytes → ℕ → ℕ → Result Bytes
opus_bytes_to_pcm k data' sample_rate channels =
    if length data' == 0
    then err empty_opus
    else if not (k.new_opus sample_rate channels)
    then err codec_unavailable
    else or_fail (k.decode_opus sample_rate channels data') (err codec_failed)

unfoldable pub convert_to_pcm : Codecs → AudioChunk → Result Bytes
unfolding opus_bytes_to_pcm
convert_to_pcm k input = elim input.format [
  | ulaw ↦ ok (k.decode_ulaw input.samples)
  | alaw ↦ ok (k.decode_alaw input.samples)
  | opus ↦ opus_bytes_to_pcm k input.samples input.sample_rate input.channels
  | pcm ↦ err unsupported_format
]

unfoldable pub convert_from_pcm : Codecs → Bytes → ℕ → ℕ → Format → Result Bytes
unfolding pcm_bytes_to_ulaw pcm_bytes_to_alaw pcm_bytes_to_opus
convert_from_pcm k data' channels sample_rate ulaw = pcm_bytes_to_ulaw k data'
convert_from_pcm k data' channels sample_rate alaw = pcm_bytes_to_alaw k data'
convert_from_pcm k data' channels sample_rate opus = pcm_bytes_to_opus k data' sample_rate channels
convert_from_pcm k data' channels sample_rate pcm = err unsupported_format

-- `(*Resampler).Resample`
unfoldable pub resample : Codecs → Bytes → ℕ → ℕ → ℕ → Result Bytes
resample k data' channels input_rate output_rate =
    if length data' == 0
    then ok []
    else if not (length data' % (2 * channels) == 0)
    then err channel_mismatch
    else if k.output_len input_rate output_rate (length data' / 2 / channels) == 0
    then err resample_failed
    else or_fail (k.process channels input_rate output_rate data') (err resample_failed)

-- `ResamplePCMBytes`; the pool gives nothing where `NewResampler` refuses
unfoldable pub resample_pcm_bytes : Codecs → Bytes → ℕ → ℕ → ℕ → Result Bytes
unfolding resample
resample_pcm_bytes k data' channels input_rate output_rate =
    if channels == 0 || ltb 8 channels
    then err codec_unavailable
    else if input_rate == 0 || output_rate == 0
    then err codec_unavailable
    else if not (k.new_resampler channels input_rate output_rate)
    then err codec_unavailable
    else resample k data' channels input_rate output_rate

-- the four steps of `ConvertAudioChunk`, each under its test
unfoldable pub step_to_pcm : Codecs → AudioChunk → Result AudioChunk
unfolding format_eq
step_to_pcm k input =
    if format_eq input.format pcm
    then ok input
    else do data' ← convert_to_pcm k input; ok (record input { samples = data'; format = pcm })

unfoldable pub step_channels : Bool → ℕ → AudioChunk → Result AudioChunk
step_channels false target_channels input = ok input
step_channels true target_channels input = do
  data' ← convert_channels input.samples input.channels target_channels
  ok (record input { samples = data'; channels = target_channels })

unfoldable pub step_sample_rate : Codecs → Bool → ℕ → AudioChunk → Result AudioChunk
step_sample_rate k false target_rate input = ok input
step_sample_rate k true target_rate input = do
  data' ← resample_pcm_bytes k input.samples input.channels input.sample_rate target_rate
  ok (record input { samples = data'; sample_rate = target_rate })

unfoldable pub step_from_pcm : Codecs → Bool → Format → AudioChunk → Result AudioChunk
step_from_pcm k false target input = ok input
step_from_pcm k true target input = do
  data' ← convert_from_pcm k input.samples input.channels input.sample_rate target
  ok (record input { samples = data'; format = target })

unfoldable pub convert_steps :
    Codecs → AudioChunk → Format → ℕ → ℕ → Bool → Bool → Bool → Result AudioChunk
convert_steps k input target target_channels target_rate need_format need_channels need_rate = do
  a ← step_to_pcm k input
  b ← step_channels need_channels target_channels a
  c ← step_sample_rate k need_rate target_rate b
  step_from_pcm k (need_format && not (format_eq target pcm)) target c

unfoldable pub convert_audio_chunk : Codecs → AudioChunk → Format → ℕ → ℕ → Result AudioChunk
convert_audio_chunk k input target target_channels target_rate =
    let need_format = not (format_eq input.format target) in
    let need_rate = not (input.sample_rate == target_rate) in
    let need_channels = not (input.channels == target_channels) in
    if not need_format && not need_rate && not need_channels
    then ok input
    else convert_steps k input target target_channels target_rate need_format need_channels
        need_rate
