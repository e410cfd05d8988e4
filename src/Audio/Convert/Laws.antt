-- ===== src/Audio/Convert/Laws.antt =====
-- What a successful `ConvertAudioChunk` returns.
use interact_kit_sdk.Prelude.{
  ℕ, ◌≡◌, refl, ◌≢◌, ◌↔◌, ◌⊎◌, Bool, true, not, ◌&&◌, arith, ◌==◌, if◌then◌else◌,
}
use interact_kit_sdk.Audio.Wav.{Result, ok, err, ◌>>=◌}
use interact_kit_sdk.Audio.Convert.{
  Format, pcm, format_eq, AudioChunk, Codecs, convert_steps, step_to_pcm, step_channels,
  step_sample_rate, step_from_pcm, convert_audio_chunk,
}

-- what the first part of a successful conversion returned, and that the rest succeeded on it
first_succeeds :
    (first : Result AudioChunk) (later : AudioChunk → Result AudioChunk) {end : AudioChunk}
    → (first >>= later) ≡ ok end
    → (middle : AudioChunk) × (first ≡ ok middle) × (later middle ≡ ok end)
first_succeeds (err problem) later done = cc done
first_succeeds (ok middle) later done = (middle, refl, done)

-- the fields of a chunk but its samples
pub record Shape (c : AudioChunk) (f : Format) (ch sr ts : ℕ) : Type 0 where
  pub format_is : c.format ≡ f
  pub channels_is : c.channels ≡ ch
  pub rate_is : c.sample_rate ≡ sr
  pub time_is : c.timestamp ≡ ts

step_to_pcm-Shape :
    (k : Codecs) (a : AudioChunk) {b : AudioChunk}
    → step_to_pcm k a ≡ ok b
    → Shape b pcm a.channels a.sample_rate a.timestamp
unfolding step_to_pcm
step_to_pcm-Shape k a h = ground arith

step_channels-Shape :
    (need : Bool) (ch : ℕ) (a : AudioChunk) {b : AudioChunk}
    → step_channels need ch a ≡ ok b
    → Shape b a.format (if need then ch else a.channels) a.sample_rate a.timestamp
unfolding step_channels
step_channels-Shape need ch a h = ground arith

step_sample_rate-Shape :
    (k : Codecs) (need : Bool) (sr : ℕ) (a : AudioChunk) {b : AudioChunk}
    → step_sample_rate k need sr a ≡ ok b
    → Shape b a.format a.channels (if need then sr else a.sample_rate) a.timestamp
unfolding step_sample_rate
step_sample_rate-Shape k need sr a h = ground arith

step_from_pcm-Shape :
    (k : Codecs) (need : Bool) (f : Format) (a : AudioChunk) {b : AudioChunk}
    → step_from_pcm k need f a ≡ ok b
    → Shape b (if need then f else a.format) a.channels a.sample_rate a.timestamp
unfolding step_from_pcm
step_from_pcm-Shape k need f a h = ground arith

-- the format that a conversion which is not the identity ends in
abbrev pub end_format : Format → Format → Format
end_format from to = if not (format_eq from to) && not (format_eq to pcm) then to else pcm

convert_steps-Shape :
    (k : Codecs) (a : AudioChunk) (f : Format) (ch sr : ℕ) (nf nc nr : Bool) {b : AudioChunk}
    → convert_steps k a f ch sr nf nc nr ≡ ok b
    → Shape b
        (if nf && not (format_eq f pcm) then f else pcm)
        (if nc then ch else a.channels)
        (if nr then sr else a.sample_rate)
        a.timestamp
unfolding convert_steps
convert_steps-Shape k a f ch sr nf nc nr h =
    let (p, hp, h1) = first_succeeds (step_to_pcm k a) _ h in
    let (q, hq, h2) = first_succeeds (step_channels nc ch p) _ h1 in
    let (r, hr, h3) = first_succeeds (step_sample_rate k nr sr q) _ h2 in
    ground (
      arith,
      step_to_pcm-Shape k a hp,
      step_channels-Shape nc ch p hq,
      step_sample_rate-Shape k nr sr q hr,
      step_from_pcm-Shape k (nf && not (format_eq f pcm)) f r h3,
    )

pub format_eq_iff : (f g : Format) → (format_eq f g ≡ true) ↔ (f ≡ g)
unfolding format_eq
format_eq_iff f g = ground arith

convert_audio_chunk-Shape :
    (k : Codecs) (a : AudioChunk) (f : Format) (ch sr : ℕ) {b : AudioChunk}
    → convert_audio_chunk k a f ch sr ≡ ok b
    → ((b ≡ a) × (a.format ≡ f) × (a.sample_rate ≡ sr) × (a.channels ≡ ch))
      ⊎ Shape b (end_format a.format f) ch sr a.timestamp
unfolding convert_audio_chunk
convert_audio_chunk-Shape k a f ch sr {b} h = ground (
  arith,
  format_eq_iff a.format f,
  convert_steps-Shape k a f ch sr (not (format_eq a.format f)) (not (a.channels == ch))
      (not (a.sample_rate == sr)) {b = b},
)

-- A successful conversion has the requested format, channels and rate, and the time stamp of its
-- input, where the input is PCM, or is not already in the requested format, or has the requested
-- channels and rate.
pub convert_audio_chunk-target :
    (k : Codecs) (a : AudioChunk) (f : Format) (ch sr : ℕ) {b : AudioChunk}
    → convert_audio_chunk k a f ch sr ≡ ok b
    → (a.format ≡ pcm) ⊎ (a.format ≢ f) ⊎ ((a.channels ≡ ch) × (a.sample_rate ≡ sr))
    → Shape b f ch sr a.timestamp
unfolding convert_audio_chunk
convert_audio_chunk-target k a f ch sr h c =
    ground (
      arith,
      convert_audio_chunk-Shape k a f ch sr h,
      format_eq_iff a.format f,
      format_eq_iff f pcm,
    )

-- A compressed chunk that is asked for in its own format, at another rate or with other channels,
-- comes back as PCM, which is not the format that was asked for.
pub convert_audio_chunk_left_as_pcm :
    (k : Codecs) (a : AudioChunk) (ch sr : ℕ) {b : AudioChunk}
    → a.format ≢ pcm
    → (a.channels ≢ ch) ⊎ (a.sample_rate ≢ sr)
    → convert_audio_chunk k a a.format ch sr ≡ ok b
    → (b.format ≡ pcm) × (b.format ≢ a.format)
convert_audio_chunk_left_as_pcm k a ch sr np d h =
    ground (arith, convert_audio_chunk-Shape k a a.format ch sr h, format_eq_iff a.format a.format)
