-- ===== src/Audio/Wav/RoundTrip.antt =====
-- What `StripWAVHeaderIfPresent` gives back of what `PCMBytesToWavBytes` wrote.
use interact_kit_sdk.Prelude.{
  ℕ, suc, ◌+◌, ◌*◌, ◌%◌, ◌<◌, ◌≡◌, refl, ◌↔◌, ◌⊎◌, ◌++◌, arith, length, drop, length-append,
  take_all,
}
use interact_kit_sdk.Audio.Bytes.{Bytes, put_u16, put_u32, get_u32, get_u32-put_u32, bytes_eq}
use interact_kit_sdk.Audio.Wav.{
  ok, data_id, wav_header, pcm_bytes_to_wav_bytes, find_data, strip_wav_header_if_present,
}

length-wav_header : (n c r : ℕ) → length (wav_header n c r) ≡ 44
unfolding wav_header put_u16 put_u32
length-wav_header n c r = refl

-- the walk stops at a data chunk that fills the rest of the buffer
find_data-data :
    (fuel : ℕ) (pcm : Bytes)
    → length pcm < 4294967296
    → find_data (suc fuel) (data_id ++ (put_u32 (length pcm) ++ pcm)) ≡ ok pcm
unfolding find_data bytes_eq put_u32
find_data-data fuel pcm h =
    ground (arith, get_u32-put_u32 (length pcm) pcm, take_all (length pcm) pcm)

-- after the 12 bytes of the RIFF header the walk skips the fmt chunk and meets the data chunk
strip-header :
    (pcm : Bytes) (c r : ℕ)
    → length pcm < 4294967296
    → strip_wav_header_if_present (wav_header (length pcm) c r ++ pcm) ≡ ok pcm
unfolding strip_wav_header_if_present wav_header find_data bytes_eq put_u16 put_u32 get_u32
strip-header pcm c r h =
    ground (arith, find_data-data (length (drop 2 (wav_header (length pcm) c r ++ pcm))) pcm h)

-- A WAV made of PCM bytes that fit a 32-bit size field is stripped back to exactly these bytes.
pub strip-pcm_bytes_to_wav_bytes :
    (pcm : Bytes) (num_channels sample_rate : ℕ) {wav : Bytes}
    → length pcm < 4294967296
    → pcm_bytes_to_wav_bytes pcm num_channels sample_rate ≡ ok wav
    → strip_wav_header_if_present wav ≡ ok pcm
unfolding pcm_bytes_to_wav_bytes
strip-pcm_bytes_to_wav_bytes pcm c r h e = ground (arith, strip-header pcm c r h)

-- The wrapper accepts exactly the PCM slices that hold whole frames of one or two channels at a
-- positive rate, and then the result is 44 bytes longer than the samples.
pub pcm_bytes_to_wav_bytes_iff :
    (pcm : Bytes) (num_channels sample_rate : ℕ)
    → ((wav : Bytes) × (pcm_bytes_to_wav_bytes pcm num_channels sample_rate ≡ ok wav)
        × (length wav ≡ 44 + length pcm))
      ↔ ((0 < length pcm)
          × ((num_channels ≡ 1) ⊎ (num_channels ≡ 2))
          × (0 < sample_rate)
          × (length pcm % (2 * num_channels) ≡ 0))
unfolding pcm_bytes_to_wav_bytes
pcm_bytes_to_wav_bytes_iff pcm c r = (
  λ h. ground (arith, h.1),
  λ h. (
    wav_header (length pcm) c r ++ pcm,
    ground arith,
    omega (
      arith,
      length-append (wav_header (length pcm) c r) pcm,
      length-wav_header (length pcm) c r,
    ),
  ),
)
