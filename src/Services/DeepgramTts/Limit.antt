-- ===== src/Services/DeepgramTts/Limit.antt =====
-- The characters that Deepgram holds between flushes, and what `BufferText` of
-- services/deepgram/tts/tts.go sends it. Each byte counts as a character, so no text has more.
use interact_kit_sdk.Services.DeepgramTts.{chunk_size, speak, split}
use interact_kit_sdk.Audio.Bytes.{Bytes}
use interact_kit_sdk.Services.DeepgramTts.Socket.{close_stream, clear, flush, Frame}
use interact_kit_sdk.Prelude.{
  ℕ, zero, suc, ◌+◌, ◌≤◌, ◌≡◌, refl, sym, ap, ◌∙◌, Bool, true, ◌&&◌, some, List, [], ◌∷◌, ◌++◌,
  append_assoc, arith, leb, length, take, drop,
}

-- what the server holds after the messages
unfoldable pub buffered : ℕ → List Frame → ℕ
buffered n [] = n
buffered n (speak t ∷ fs) = buffered (n + length t) fs
buffered n (flush ∷ fs) = buffered 0 fs
buffered n (clear ∷ fs) = buffered 0 fs
buffered n (close_stream ∷ fs) = buffered n fs

-- Does it never hold more than `cap`?
unfoldable pub within : ℕ → ℕ → List Frame → Bool
within cap n [] = leb n cap
within cap n (speak t ∷ fs) = leb n cap && within cap (n + length t) fs
within cap n (flush ∷ fs) = leb n cap && within cap 0 fs
within cap n (clear ∷ fs) = leb n cap && within cap 0 fs
within cap n (close_stream ∷ fs) = leb n cap && within cap n fs

-- the text that the messages say
unfoldable pub spoken : List Frame → Bytes
spoken [] = []
spoken (speak t ∷ fs) = t ++ spoken fs
spoken (flush ∷ fs) = spoken fs
spoken (clear ∷ fs) = spoken fs
spoken (close_stream ∷ fs) = spoken fs

-- Is no text of a message longer than a chunk?
unfoldable pub short_texts : List Frame → Bool
short_texts [] = true
short_texts (speak t ∷ fs) = leb (length t) chunk_size && short_texts fs
short_texts (flush ∷ fs) = short_texts fs
short_texts (clear ∷ fs) = short_texts fs
short_texts (close_stream ∷ fs) = short_texts fs

pub spoken-append : (xs ys : List Frame) → spoken (xs ++ ys) ≡ spoken xs ++ spoken ys
unfolding spoken
spoken-append [] ys = refl
spoken-append (speak t ∷ xs) ys =
    ap (λ z. t ++ z) (spoken-append xs ys) ∙ sym (append_assoc t (spoken xs) (spoken ys))
spoken-append (flush ∷ xs) ys = spoken-append xs ys
spoken-append (clear ∷ xs) ys = spoken-append xs ys
spoken-append (close_stream ∷ xs) ys = spoken-append xs ys

pub short_texts-append :
    (xs ys : List Frame)
    → short_texts xs ≡ true
    → short_texts ys ≡ true
    → short_texts (xs ++ ys) ≡ true
unfolding short_texts
short_texts-append [] ys h k = k
short_texts-append (speak t ∷ xs) ys h k = ground (arith, short_texts-append xs ys)
short_texts-append (flush ∷ xs) ys h k = short_texts-append xs ys h k
short_texts-append (clear ∷ xs) ys h k = short_texts-append xs ys h k
short_texts-append (close_stream ∷ xs) ys h k = short_texts-append xs ys h k

pub take-append-drop : (n : ℕ) (xs : Bytes) → take n xs ++ drop n xs ≡ xs
take-append-drop zero xs = refl
take-append-drop (suc n) [] = refl
take-append-drop (suc n) (x ∷ xs) = ap (◌∷◌ x) (take-append-drop n xs)

-- A text that fits a chunk is left whole.
pub split_short :
    (written : ℕ → Bool) (fuel k count : ℕ) (text : Bytes)
    → length text ≤ chunk_size
    → split written fuel k count text ≡ ([], count, some (k, text))
unfolding split
split_short written zero k count text h = refl
split_short written (suc fuel) k count text h = ground arith
