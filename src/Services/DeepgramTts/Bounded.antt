-- ===== src/Services/DeepgramTts/Bounded.antt =====
-- The limit of services/deepgram/tts/tts.go, `maxCharsBeforeFlush`, along the calls on one
-- connection whose writes succeed.
use interact_kit_sdk.Audio.Bytes.{Bytes}
use interact_kit_sdk.Services.DeepgramTts.Limit.{split_short, buffered, within}
use interact_kit_sdk.Services.DeepgramTts.Socket.{
  starts_heartbeat, starts_reader, ready, close_stream, reports, flush, clear, emits, closes, Ready,
  Effect, Frame, Done, DeepgramTts,
}
use interact_kit_sdk.Services.DeepgramTts.{
  ready, reset, flush, on, clear, empties, refused, send_last, flush_buffer, speak, writes, Ready,
  buffer_text, send_left, max_chars, chunk_size, send_text, buffer_on, writes_all,
}
use interact_kit_sdk.Prelude.{
  ℕ, ◌+◌, ◌≤◌, ◌<◌, ◌≡◌, refl, ap, true, List, [], ◌∷◌, ◌++◌, arith, length, All,
}

-- the calls that write to the connection
pub data Command : Type 0 where
  says : Bytes → Command
  flushes resets : Command

unfoldable pub perform : Command → DeepgramTts → Done
perform (says t) s = buffer_text (λ k. true) t s
perform flushes s = flush_buffer true s
perform resets s = reset true s

unfoldable pub perform_all : List Command → DeepgramTts → DeepgramTts × List Effect
unfolding perform
perform_all [] s = (s, [])
perform_all (c ∷ cs) s =
    let (next, out, fault) = perform c s in
    let (last, more) = perform_all cs next in (last, out ++ more)

-- the messages among what was done
unfoldable pub frames_of : List Effect → List Frame
frames_of [] = []
frames_of (writes c f ∷ out) = f ∷ frames_of out
frames_of (closes c ∷ out) = frames_of out
frames_of (emits s b ∷ out) = frames_of out
frames_of (reports s t ∷ out) = frames_of out
frames_of (starts_reader s ∷ out) = frames_of out
frames_of (starts_heartbeat ∷ out) = frames_of out

frames_of-append : (xs ys : List Effect) → frames_of (xs ++ ys) ≡ frames_of xs ++ frames_of ys
unfolding frames_of
frames_of-append [] ys = refl
frames_of-append (writes c f ∷ xs) ys = ap (◌∷◌ f) (frames_of-append xs ys)
frames_of-append (closes c ∷ xs) ys = frames_of-append xs ys
frames_of-append (emits s b ∷ xs) ys = frames_of-append xs ys
frames_of-append (reports s t ∷ xs) ys = frames_of-append xs ys
frames_of-append (starts_reader s ∷ xs) ys = frames_of-append xs ys
frames_of-append (starts_heartbeat ∷ xs) ys = frames_of-append xs ys

pub frames_of-writes_all : (c : ℕ) (fs : List Frame) → frames_of (writes_all c fs) ≡ fs
unfolding frames_of writes_all
frames_of-writes_all c [] = refl
frames_of-writes_all c (f ∷ fs) = ap (◌∷◌ f) (frames_of-writes_all c fs)

buffered-append : (n : ℕ) (xs ys : List Frame) → buffered n (xs ++ ys) ≡ buffered (buffered n xs) ys
unfolding buffered
buffered-append n [] ys = refl
buffered-append n (speak t ∷ xs) ys = buffered-append (n + length t) xs ys
buffered-append n (flush ∷ xs) ys = buffered-append 0 xs ys
buffered-append n (clear ∷ xs) ys = buffered-append 0 xs ys
buffered-append n (close_stream ∷ xs) ys = buffered-append n xs ys

within-append :
    (cap n : ℕ) (xs ys : List Frame)
    → within cap n xs ≡ true
    → within cap (buffered n xs) ys ≡ true
    → within cap n (xs ++ ys) ≡ true
unfolding within buffered
within-append cap n [] ys h k = k
within-append cap n (speak t ∷ xs) ys h k = ground (arith, within-append cap (n + length t) xs ys)
within-append cap n (flush ∷ xs) ys h k = ground (arith, within-append cap 0 xs ys)
within-append cap n (clear ∷ xs) ys h k = ground (arith, within-append cap 0 xs ys)
within-append cap n (close_stream ∷ xs) ys h k = ground (arith, within-append cap n xs ys)

-- The messages keep to the limit where the server holds `n`, and the count after them is right.
record Keeps (n : ℕ) (frames : List Frame) (count : ℕ) : Type 0 where
  kept : within max_chars n frames ≡ true
  counted : buffered n frames ≤ count
  low : count < max_chars

send_text-Keeps :
    (n count : ℕ) (text : Bytes)
    → n ≤ count
    → count < max_chars
    → length text ≤ chunk_size
    → Keeps n (send_text (λ k. true) count text).0 (send_text (λ k. true) count text).1
unfolding send_text send_left send_last within buffered
send_text-Keeps n count text h l short =
    rw (split_short (λ k. true) (length text) 0 count text short) (ground arith)

Keeps-nil : (n count : ℕ) → n ≤ count → count < max_chars → Keeps n [] count
unfolding within buffered
Keeps-nil n count h l = ground arith

-- a command whose text fits a chunk
abbrev pub IsShort : Command → Type 0
IsShort (says t) = length t ≤ chunk_size
IsShort _ = Unit

-- what a call does to the count
abbrev CallKeeps : ℕ → Done → Type 0
CallKeeps n (s, out, fault) = Keeps n (frames_of out) s.char_count

buffer_on-Keeps :
    (n : ℕ) (t : Bytes) (r : Ready) (s : DeepgramTts)
    → n ≤ s.char_count
    → s.char_count < max_chars
    → length t ≤ chunk_size
    → CallKeeps n (buffer_on (λ k. true) t r s)
unfolding buffer_on frames_of
buffer_on-Keeps n t (refused fault) s h l short = Keeps-nil n s.char_count h l
buffer_on-Keeps n [] (on c) s h l short = Keeps-nil n s.char_count h l
buffer_on-Keeps n (b ∷ bs) (on c) s h l short =
    rw (frames_of-writes_all c (send_text (λ k. true) s.char_count (b ∷ bs)).0)
      (send_text-Keeps n s.char_count (b ∷ bs) h l short)

module _ (n : ℕ) (s : DeepgramTts) (h : n ≤ s.char_count) (l : s.char_count < max_chars) where
  flush-Keeps : (r : Ready) → CallKeeps n (empties flush true r s)
  unfolding empties frames_of within buffered
  flush-Keeps (refused fault) = Keeps-nil n s.char_count h l
  flush-Keeps (on c) = ground arith

  clear-Keeps : (r : Ready) → CallKeeps n (empties clear true r s)
  unfolding empties frames_of within buffered
  clear-Keeps (refused fault) = Keeps-nil n s.char_count h l
  clear-Keeps (on c) = ground arith

  perform-Keeps : (c : Command) → IsShort c → CallKeeps n (perform c s)
  unfolding perform buffer_text flush_buffer reset
  perform-Keeps (says t) short = buffer_on-Keeps n t (ready s) s h l short
  perform-Keeps flushes _ = flush-Keeps (ready s)
  perform-Keeps resets _ = clear-Keeps (ready s)

-- Where the server holds `n` characters, the count is at least `n` and below the limit, every write
-- succeeds and no text of a call of `BufferText` is longer than a chunk: along any sequence of
-- calls of `BufferText`, `Flush` and `Reset` the server never holds more than `maxCharsBeforeFlush`.
pub perform_all-within :
    (cs : List Command) (n : ℕ) (s : DeepgramTts)
    → n ≤ s.char_count
    → s.char_count < max_chars
    → All IsShort cs
    → within max_chars n (frames_of (perform_all cs s).1) ≡ true
unfolding perform_all
perform_all-within [] n s h l shorts = unfold frames_of in (Keeps-nil n s.char_count h l).kept
perform_all-within (c ∷ cs) n s h l (short, shorts) =
    let out = (perform c s).1 in
    let keeps = perform-Keeps n s h l c short in
    rw (frames_of-append out (perform_all cs (perform c s).0).1) (
      within-append max_chars n (frames_of out) (frames_of (perform_all cs (perform c s).0).1)
        keeps.kept
        (perform_all-within cs (buffered n (frames_of out)) (perform c s).0 keeps.counted keeps.low
          shorts))
