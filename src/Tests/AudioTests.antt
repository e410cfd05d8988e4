-- ===== src/Tests/AudioTests.antt =====
-- Runs of the audio functions: utils/audio/audio.go.
use interact_kit_sdk.Text.{codes}
use interact_kit_sdk.Prelude.{◌≡◌, refl, inl, inr, true, some, [], ◌∷◌, ◌++◌, arith}
use interact_kit_sdk.Audio.Bytes.{Bytes, get_u32, bytes_eq}
use interact_kit_sdk.Audio.Wav.{
  data_not_found, ok, err, wav_header, pcm_bytes_to_wav_bytes, strip_wav_header_if_present,
  find_data,
}
use interact_kit_sdk.Audio.Wav.RoundTrip.{strip-pcm_bytes_to_wav_bytes}
use interact_kit_sdk.Audio.Convert.{
  resample_pcm_bytes, convert_to_pcm, Format, pcm, ulaw, AudioChunk, Codecs, convert_audio_chunk,
  convert_steps, step_to_pcm, step_channels, step_sample_rate, step_from_pcm,
}
use interact_kit_sdk.Audio.Convert.Laws.{Shape, convert_audio_chunk-target}

abbrev two_frames : Bytes
two_frames = 1 ∷ 2 ∷ 3 ∷ 255 ∷ []

strip-wav_example : strip_wav_header_if_present (wav_header 4 1 8000 ++ two_frames) ≡ ok two_frames
unfolding pcm_bytes_to_wav_bytes
strip-wav_example = strip-pcm_bytes_to_wav_bytes two_frames 1 8000 (omega arith) refl

-- a chunk in front of the data is skipped with its padding, and a file without data is refused
strip_runs :
    (strip_wav_header_if_present (codes "RIFF....WAVELIST\u{1}\0\0\0x.data\u{2}\0\0\0ab")
      ≡ ok (codes "ab"))
    × (strip_wav_header_if_present (codes "RIFF....WAVE") ≡ err data_not_found)
    × (strip_wav_header_if_present (codes "ID3") ≡ ok (codes "ID3"))
unfolding strip_wav_header_if_present find_data bytes_eq get_u32
strip_runs = (refl, refl, refl)

-- codecs that change nothing
abbrev plain : Codecs
plain = record {
  encode_ulaw = λ b. b;
  decode_ulaw = λ b. b;
  encode_alaw = λ b. b;
  decode_alaw = λ b. b;
  new_opus = λ _ _. true;
  encode_opus = λ _ _ b. some b;
  decode_opus = λ _ _ b. some b;
  new_resampler = λ _ _ _. true;
  output_len = λ _ _ n. n;
  process = λ _ _ _ b. some b;
}

abbrev call_chunk : Format → AudioChunk
call_chunk f = record {
  samples = two_frames;
  sample_rate = 8000;
  channels = 1;
  format = f;
  timestamp = 7;
}

abbrev resampled : AudioChunk
resampled = record {
  samples = two_frames;
  sample_rate = 16000;
  channels = 1;
  format = pcm;
  timestamp = 7;
}

convert_runs : convert_audio_chunk plain (call_chunk ulaw) pcm 1 16000 ≡ ok resampled
unfolding convert_audio_chunk convert_steps step_to_pcm step_channels step_sample_rate step_from_pcm
    convert_to_pcm resample_pcm_bytes
convert_runs = refl

convert-target_example : Shape resampled pcm 1 16000 7
convert-target_example =
    convert_audio_chunk-target plain (call_chunk ulaw) pcm 1 16000 convert_runs
      (inr (inl (λ e. cc)))

convert_left_runs : convert_audio_chunk plain (call_chunk ulaw) ulaw 1 16000 ≡ ok resampled
unfolding convert_audio_chunk convert_steps step_to_pcm step_channels step_sample_rate step_from_pcm
    convert_to_pcm resample_pcm_bytes
convert_left_runs = refl
