-- ===== src/Services/DeepgramTts/Overflow.antt =====
-- A long text on top of what Deepgram already holds: the loop of `BufferText` in
-- services/deepgram/tts/tts.go.
use interact_kit_sdk.Services.DeepgramTts.Bounded.{frames_of-writes_all, frames_of}
use interact_kit_sdk.Services.DeepgramTts.Socket.{on, ready, flush, speak, DeepgramTts, Frame}
use interact_kit_sdk.Services.DeepgramTts.Encoding.{
  IsAscii, characters, characters-ascii, holds_within, json_text, json_text-ascii,
}
use interact_kit_sdk.Services.DeepgramTts.{
  on, send_last, ready, max_chars, flush, speak, chunk_size, DeepgramTts, after_chunk, split, Frame,
  buffer_on, Split, send_text, send_left, buffer_text,
}
use interact_kit_sdk.Audio.Bytes.{Bytes}
use interact_kit_sdk.Prelude.{
  ℕ, ◌+◌, ◌<◌, ◌≡◌, refl, Bool, true, false, none, some, List, [], ◌∷◌, ◌++◌, arith, leb, lt→ltb,
  length, take, drop, length-take, All-take,
}

-- the messages that begin with a chunk and a flush
abbrev Begins : Bytes → List Frame → Type 0
Begins chunk frames = (rest : List Frame) × (frames ≡ speak chunk ∷ flush ∷ rest)

send_left-after_chunk :
    (written : ℕ → Bool) (chunk : Bytes) (s : Split)
    → Begins chunk (send_left written (after_chunk chunk s)).0
unfolding send_left
send_left-after_chunk written chunk (frames, count, none) = (frames, refl)
send_left-after_chunk written chunk (frames, count, some (k, text)) =
    (frames ++ (send_last written k count text).0, refl)

-- the first chunk of a long text goes out before any flush
send_text-Begins :
    (count : ℕ) (text : Bytes)
    → chunk_size < length text
    → Begins (take chunk_size text) (send_text (λ k. true) count text).0
unfolding send_text split
send_text-Begins count [] h = absurd (omega arith)
send_text-Begins count (b ∷ bs) h = rw (lt→ltb chunk_size (length (b ∷ bs)) h) (
    send_left-after_chunk (λ k. true) (take chunk_size (b ∷ bs))
      (split (λ k. true) (length bs) 2 0 (drop chunk_size (b ∷ bs))))

holds_within-chunk :
    (n : ℕ) (chunk : Bytes) (rest : List Frame)
    → characters (json_text chunk) ≡ chunk_size
    → 100 < n
    → holds_within max_chars n (speak chunk ∷ flush ∷ rest) ≡ false
unfolding holds_within
holds_within-chunk n chunk rest h l =
    let over : leb (n + characters (json_text chunk)) max_chars ≡ false = ground arith in
    rw over (ground arith)

-- a chunk of ASCII characters has as many as bytes
chunk-characters :
    (text : Bytes)
    → IsAscii text
    → chunk_size < length text
    → characters (json_text (take chunk_size text)) ≡ chunk_size
chunk-characters text ascii h =
    let few : IsAscii (take chunk_size text) = All-take _ chunk_size text ascii in
    rw (json_text-ascii (take chunk_size text) few, characters-ascii (take chunk_size text) few)
      (omega (arith, length-take chunk_size text))

-- Where the service is ready, Deepgram holds more than 100 characters and every write succeeds: a
-- call of `BufferText` with a text of ASCII characters that is longer than a chunk makes Deepgram
-- hold more than `maxCharsBeforeFlush` characters, whatever was counted.
pub buffer_text-overflows :
    (c n : ℕ) (text : Bytes) (s : DeepgramTts)
    → ready s ≡ on c
    → 100 < n
    → IsAscii text
    → chunk_size < length text
    → holds_within max_chars n (frames_of (buffer_text (λ k. true) text s).1) ≡ false
unfolding buffer_text buffer_on
buffer_text-overflows c n [] s r l ascii h = absurd (omega arith)
buffer_text-overflows c n (b ∷ bs) s r l ascii h =
    let (rest, begins) = send_text-Begins s.char_count (b ∷ bs) h in
    rw (r, frames_of-writes_all c (send_text (λ k. true) s.char_count (b ∷ bs)).0, begins)
      (holds_within-chunk n (take chunk_size (b ∷ bs)) rest (chunk-characters (b ∷ bs) ascii h) l)
