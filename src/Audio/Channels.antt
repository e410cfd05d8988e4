-- ===== src/Audio/Channels.antt =====
-- The channel conversion of utils/audio/audio.go: `monoToStereo`, `stereoToMono` and
-- `convertChannels`. The buffer pools only reuse memory: both functions return a fresh copy.
pub mod Laws
use interact_kit_sdk.Prelude.{ℕ, suc, ◌-◌, ◌/◌, ◌%◌, ◌&&◌, [], ◌∷◌, ◌++◌, ltb, ◌==◌, if◌then◌else◌}
use interact_kit_sdk.Audio.Bytes.{Bytes, get_u16, put_u16}
use interact_kit_sdk.Audio.Wav.{Result, ok, err, unsupported_channel_conversion}
use interact_kit_sdk.Prelude.Int.{ℤ, pos, negsuc, ◌+ℤ◌}

-- `int16(w)`: a 16-bit pattern as the signed number that it stands for
unfoldable pub signed16 : ℕ → ℤ
signed16 w = if ltb w 32768 then pos w else negsuc (65535 - w)

-- `uint16(i)` of an `int`
unfoldable pub unsigned16 : ℤ → ℕ
unsigned16 (pos n) = n % 65536
unsigned16 (negsuc n) = 65535 - n % 65536

-- `i / 2` of an `int`: Go's quotient is rounded towards 0
unfoldable pub half : ℤ → ℤ
half (pos n) = pos (n / 2)
half (negsuc n) = let k = suc n / 2 in if k == 0 then pos 0 else negsuc (k - 1)

-- the mono sample of a left and a right sample
unfoldable pub average : ℕ → ℕ → ℕ
average left right = unsigned16 (half (signed16 left +ℤ signed16 right))

-- The loops run over `len / 2` and `len / 4` whole frames; what is left over is dropped.
unfoldable pub mono_to_stereo : Bytes → Bytes
mono_to_stereo (a ∷ b ∷ rest) = a ∷ b ∷ a ∷ b ∷ mono_to_stereo rest
mono_to_stereo _ = []

unfoldable pub stereo_to_mono : Bytes → Bytes
stereo_to_mono (a ∷ b ∷ c ∷ d ∷ rest) =
    put_u16 (average (get_u16 a b) (get_u16 c d)) ++ stereo_to_mono rest
stereo_to_mono _ = []

unfoldable pub convert_channels : Bytes → ℕ → ℕ → Result Bytes
convert_channels pcm from_channels to_channels =
    if from_channels == to_channels
    then ok pcm
    else if from_channels == 1 && to_channels == 2
    then ok (mono_to_stereo pcm)
    else if from_channels == 2 && to_channels == 1
    then ok (stereo_to_mono pcm)
    else err unsupported_channel_conversion
