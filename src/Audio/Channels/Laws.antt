-- ===== src/Audio/Channels/Laws.antt =====
-- The laws of the channel conversion.
use interact_kit_sdk.Prelude.{ℕ, ◌+◌, ◌*◌, ◌/◌, ◌%◌, ◌<◌, ◌≡◌, refl, ap, [], ◌∷◌, arith, length}
use interact_kit_sdk.Prelude.Int.{◌+ℤ◌, ◌≤ℤ◌}
use interact_kit_sdk.Audio.Bytes.{Bytes, AreBytes, get_u16, put_u16}
use interact_kit_sdk.Audio.Channels.{
  signed16, unsigned16, half, average, mono_to_stereo, stereo_to_mono,
}

average_same : (w : ℕ) → w < 65536 → average w w ≡ w
unfolding average half signed16 unsigned16 ◌+ℤ◌
average_same w h = ground arith

frame_same :
    (a b : ℕ) → a < 256 → b < 256 → put_u16 (average (get_u16 a b) (get_u16 a b)) ≡ a ∷ b ∷ []
unfolding put_u16 get_u16
frame_same a b ha hb = rw (average_same (a + 256 * b) (omega arith)) (ground arith)

-- Duplicating a mono channel and averaging it again gives back every whole sample: of an even
-- number of bytes, all of them.
pub stereo_to_mono-mono_to_stereo :
    (pcm : Bytes) → AreBytes pcm → length pcm % 2 ≡ 0 → stereo_to_mono (mono_to_stereo pcm) ≡ pcm
unfolding stereo_to_mono mono_to_stereo
stereo_to_mono-mono_to_stereo [] h e = refl
stereo_to_mono-mono_to_stereo (a ∷ []) h e = absurd (omega arith)
stereo_to_mono-mono_to_stereo (a ∷ b ∷ rest) (ha, (hb, hr)) e =
    rw (frame_same a b ha hb)
      (ap (λ r. a ∷ b ∷ r) (stereo_to_mono-mono_to_stereo rest hr (omega arith)))

-- The mono sample lies between the two samples that it is made of, so that it never wraps round.
pub average_between :
    (l r : ℕ)
    → l < 65536
    → r < 65536
    → signed16 l ≤ℤ signed16 r
    → (signed16 l ≤ℤ signed16 (average l r)) × (signed16 (average l r) ≤ℤ signed16 r)
unfolding average half signed16 unsigned16 ◌+ℤ◌
average_between l r hl hr h = ground arith

-- The sizes: the samples are doubled, and halved.
pub length-mono_to_stereo : (pcm : Bytes) → length (mono_to_stereo pcm) ≡ length pcm / 2 * 4
unfolding mono_to_stereo
length-mono_to_stereo [] = refl
length-mono_to_stereo (a ∷ []) = refl
length-mono_to_stereo (a ∷ b ∷ rest) = omega (arith, length-mono_to_stereo rest)

pub length-stereo_to_mono : (pcm : Bytes) → length (stereo_to_mono pcm) ≡ length pcm / 4 * 2
unfolding stereo_to_mono put_u16
length-stereo_to_mono [] = refl
length-stereo_to_mono (a ∷ []) = refl
length-stereo_to_mono (a ∷ b ∷ []) = refl
length-stereo_to_mono (a ∷ b ∷ c ∷ []) = refl
length-stereo_to_mono (a ∷ b ∷ c ∷ d ∷ rest) = omega (arith, length-stereo_to_mono rest)
