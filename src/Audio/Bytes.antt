-- ===== src/Audio/Bytes.antt =====
-- Little-endian words, as `encoding/binary` reads and writes them in utils/audio/audio.go, and
-- the checks of that file on a PCM slice. A byte is a native number.
use interact_kit_sdk.Prelude.{
  ℕ, ◌+◌, ◌*◌, ◌/◌, ◌%◌, ◌<◌, ◌≡◌, refl, Bool, true, false, ◌&&◌, List, [], ◌∷◌, ◌++◌, arith, ◌==◌,
  All,
}

abbrev pub Bytes : Type 0
Bytes = List ℕ

abbrev pub AreBytes : Bytes → Type 0
AreBytes = All (λ b. b < 256)

-- `binary.Write(buf, binary.LittleEndian, uint16(n))`
unfoldable pub put_u16 : ℕ → Bytes
put_u16 n = n % 256 ∷ n / 256 % 256 ∷ []

-- `binary.Write(buf, binary.LittleEndian, uint32(n))`
unfoldable pub put_u32 : ℕ → Bytes
put_u32 n = n % 256 ∷ n / 256 % 256 ∷ n / 65536 % 256 ∷ n / 16777216 % 256 ∷ []

-- `binary.LittleEndian.Uint16`, on the first two bytes
unfoldable pub get_u16 : ℕ → ℕ → ℕ
get_u16 a b = a + 256 * b

-- `binary.LittleEndian.Uint32`; the callers have checked that four bytes are there
unfoldable pub get_u32 : Bytes → ℕ
get_u32 (a ∷ b ∷ c ∷ d ∷ _) = a + 256 * b + 65536 * c + 16777216 * d
get_u32 _ = 0

-- `bytes.Equal`
unfoldable pub bytes_eq : Bytes → Bytes → Bool
bytes_eq [] [] = true
bytes_eq (x ∷ xs) (y ∷ ys) = x == y && bytes_eq xs ys
bytes_eq _ _ = false

pub bytes_eq_self : (xs : Bytes) → bytes_eq xs xs ≡ true
unfolding bytes_eq
bytes_eq_self [] = refl
bytes_eq_self (x ∷ xs) = ground (arith, bytes_eq_self xs)

pub bytes_eq_sound : (xs ys : Bytes) → bytes_eq xs ys ≡ true → xs ≡ ys
unfolding bytes_eq
bytes_eq_sound [] [] h = refl
bytes_eq_sound (x ∷ xs) (y ∷ ys) h = ground (arith, bytes_eq_sound xs ys)
bytes_eq_sound [] (y ∷ ys) h = ground arith
bytes_eq_sound (x ∷ xs) [] h = ground arith

pub get_u32-put_u32 : (n : ℕ) (rest : Bytes) → n < 4294967296 → get_u32 (put_u32 n ++ rest) ≡ n
unfolding get_u32 put_u32
get_u32-put_u32 n rest h = omega arith
