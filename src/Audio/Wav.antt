-- ===== src/Audio/Wav.antt =====
-- The WAV container of utils/audio/audio.go: `PCMBytesToWavBytes` and `StripWAVHeaderIfPresent`.
-- An `int` argument is a native number: each is compared with 0 from above only, and a negative
-- one is refused as 0 is.
pub mod RoundTrip
use interact_kit_sdk.Prelude.{
  ℕ, zero, suc, ◌+◌, ◌*◌, ◌/◌, ◌%◌, not, ◌||◌, [], ◌∷◌, ◌++◌, ltb, ◌==◌, if◌then◌else◌, length,
  take, drop,
}
use interact_kit_sdk.Audio.Bytes.{Bytes, put_u16, put_u32, get_u32, bytes_eq}

-- the `errors.New` of the file
pub data AudioError : Type 0 where
  odd_length empty_pcm bad_channels bad_sample_rate channel_mismatch : AudioError
  data_exceeds_buffer data_not_found : AudioError
  unsupported_format unsupported_channel_conversion : AudioError
  codec_unavailable codec_failed empty_opus resample_failed : AudioError

pub data Result {ℓ} (R : Type ℓ) : Type ℓ where
  err : AudioError → Result R
  ok : R → Result R

infixl 5 ◌>>=◌
abbrev pub ◌>>=◌ {ℓ κ} : {R : Type ℓ} {S : Type κ} → Result R → (R → Result S) → Result S
err problem >>= next = err problem
ok bytes >>= next = next bytes

abbrev pub riff : Bytes
riff = b'R' ∷ b'I' ∷ b'F' ∷ b'F' ∷ []

abbrev pub wave : Bytes
wave = b'W' ∷ b'A' ∷ b'V' ∷ b'E' ∷ []

abbrev pub fmt_id : Bytes
fmt_id = b'f' ∷ b'm' ∷ b't' ∷ b' ' ∷ []

abbrev pub data_id : Bytes
data_id = b'd' ∷ b'a' ∷ b't' ∷ b'a' ∷ []

-- what `buf` holds when the header is written: the RIFF header, the fmt chunk, the data header
unfoldable pub wav_header : ℕ → ℕ → ℕ → Bytes
wav_header data_size num_channels sample_rate =
    let block_align = num_channels * 16 / 8 in
    let byte_rate = sample_rate * block_align in
    riff
    ++ (put_u32 (36 + data_size)
        ++ (wave
            ++ (fmt_id
                ++ (put_u32 16
                    ++ (put_u16 1
                        ++ (put_u16 num_channels
                            ++ (put_u32 sample_rate
                                ++ (put_u32 byte_rate
                                    ++ (put_u16 block_align
                                        ++ (put_u16 16 ++ (data_id ++ put_u32 data_size)))))))))))

unfoldable pub pcm_bytes_to_wav_bytes : Bytes → ℕ → ℕ → Result Bytes
pcm_bytes_to_wav_bytes pcm num_channels sample_rate =
    if length pcm == 0
    then err empty_pcm
    else if num_channels == 0 || ltb 2 num_channels
    then err bad_channels
    else if sample_rate == 0
    then err bad_sample_rate
    else if not (length pcm % (2 * num_channels) == 0)
    then err channel_mismatch
    else ok (wav_header (length pcm) num_channels sample_rate ++ pcm)

-- The walk over the subchunks. `rest` is `chunk[i:]`, so `next > len(chunk)` reads
-- `8 + size > len(rest)`; the fuel is the length of the input, and each round drops 8 bytes or more.
unfoldable pub find_data : ℕ → Bytes → Result Bytes
find_data zero rest = err data_not_found
find_data (suc fuel) rest =
    let size = get_u32 (drop 4 rest) in
    let padded = if size % 2 == 0 then size else size + 1 in
    let later = find_data fuel (drop (8 + padded) rest) in
    if ltb (length rest) 8
    then err data_not_found
    else if bytes_eq (take 4 rest) data_id
    then if ltb (length rest) (8 + size)
      then err data_exceeds_buffer
      else ok (take size (drop 8 rest))
    else if ltb (length rest) (8 + padded)
    then err data_not_found
    else later

unfoldable pub strip_wav_header_if_present : Bytes → Result Bytes
strip_wav_header_if_present chunk =
    if ltb (length chunk) 12
    then ok chunk
    else if not (bytes_eq (take 4 chunk) riff) || not (bytes_eq (take 4 (drop 8 chunk)) wave)
    then ok chunk
    else find_data (length chunk) (drop 12 chunk)
