-- ===== src/Services/DeepgramTts.antt =====
-- The text-to-speech service of Deepgram, services/deepgram/tts/tts.go: its connection, its session
-- and the texts that it sends. A connection and a session are numbers, the identities of the
-- objects. What gorilla/websocket and the JSON decoder answer is an input: the outcome of each dial,
-- of each write, and what a read brings. A text is the list of its bytes.
pub mod Socket
pub mod Reader
pub mod Encoding
pub mod Limit
pub mod Delivers
pub mod Bounded
pub mod Overflow
pub mod Reconnects
pub mod Shutdown
use interact_kit_sdk.Services.DeepgramTts.Socket.{
  no_session, close_stream, empty_text, on, clear, refused, Done, writes, write_failed, DeepgramTts,
  flush, Effect, Fault, Frame, Ready, speak, ready,
}
use interact_kit_sdk.Audio.Bytes.{Bytes}
use interact_kit_sdk.Prelude.{
  ℕ, zero, suc, ◌+◌, ◌-◌, Bool, true, false, Option, none, some, List, [], ◌∷◌, ◌++◌, ltb, leb,
  if◌then◌else◌, length, take, drop,
}

-- `maxCharsBeforeFlush`, and the `chunkSize` of `BufferText`
abbrev pub max_chars : ℕ
max_chars = 2000

abbrev pub chunk_size : ℕ
chunk_size = max_chars - 100

-- What the loop of `BufferText` leaves: the messages that were written, `charCount`, and the text
-- that is left with the number of writes made, or nothing where a write failed.
abbrev pub Split : Type 0
Split = List Frame × ℕ × Option (ℕ × Bytes)

-- the messages of a chunk before those of the later ones
abbrev pub after_chunk : Bytes → Split → Split
after_chunk chunk (frames, count, left) = (speak chunk ∷ flush ∷ frames, count, left)

-- The loop that sends a long text, on fuel, with the outcome `written k` of the k-th write.
unfoldable pub split : (ℕ → Bool) → ℕ → ℕ → ℕ → Bytes → Split
split written zero k count text = ([], count, some (k, text))
split written (suc fuel) k count text =
    let rest =
      after_chunk (take chunk_size text) (split written fuel (k + 2) 0 (drop chunk_size text)) in
    if ltb chunk_size (length text)
    then if written k
      then if written (k + 1) then rest else (speak (take chunk_size text) ∷ [], count, none)
      else ([], count, none)
    else ([], count, some (k, text))

-- a message where its write succeeds
abbrev pub when_written : Bool → Frame → List Frame
when_written true f = f ∷ []
when_written false f = []

-- The rest of a text, after a flush where the limit is near. A flush that fails is only logged.
unfoldable pub send_last : (ℕ → Bool) → ℕ → ℕ → Bytes → List Frame × ℕ × Bool
send_last written k count text =
    if leb max_chars (count + length text)
    then (
      when_written (written k) flush ++ when_written (written (k + 1)) (speak text),
      length text,
      written (k + 1),
    )
    else (when_written (written k) (speak text), count + length text, written k)

-- What `BufferText` writes, the new `charCount`, and whether it returns without an error.
unfoldable pub send_left : (ℕ → Bool) → Split → List Frame × ℕ × Bool
unfolding send_last
send_left written (frames, count, none) = (frames, count, false)
send_left written (frames, count, some (k, text)) =
    let (more, last, fine) = send_last written k count text in (frames ++ more, last, fine)

unfoldable pub send_text : (ℕ → Bool) → ℕ → Bytes → List Frame × ℕ × Bool
unfolding split send_left
send_text written count text = send_left written (split written (length text) 0 count text)

-- the messages as effects on a connection
unfoldable pub writes_all : ℕ → List Frame → List Effect
writes_all c [] = []
writes_all c (f ∷ fs) = writes c f ∷ writes_all c fs

abbrev pub fault_unless : Bool → Option Fault
fault_unless true = none
fault_unless false = some write_failed

unfoldable pub buffer_on : (ℕ → Bool) → Bytes → Ready → DeepgramTts → Done
unfolding send_text writes_all
buffer_on written text (refused fault) s = (s, [], some fault)
buffer_on written [] (on c) s = (s, [], some empty_text)
buffer_on written (b ∷ bs) (on c) s =
    let (frames, count, fine) = send_text written s.char_count (b ∷ bs) in
    (record s { char_count = count }, writes_all c frames, fault_unless fine)

-- `BufferText`
unfoldable pub buffer_text : (ℕ → Bool) → Bytes → DeepgramTts → Done
unfolding buffer_on ready
buffer_text written text s = buffer_on written text (ready s) s

-- One message that empties the buffer of the server: `Flush` and `Reset`.
unfoldable pub empties : Frame → Bool → Ready → DeepgramTts → Done
empties f written (refused fault) s = (s, [], some fault)
empties f true (on c) s = (record s { char_count = 0 }, writes c f ∷ [], none)
empties f false (on c) s = (record s { char_count = 0 }, [], some write_failed)

unfoldable pub flush_buffer : Bool → DeepgramTts → Done
unfolding empties ready
flush_buffer written s = empties flush written (ready s) s

unfoldable pub reset : Bool → DeepgramTts → Done
unfolding empties ready
reset written s = empties clear written (ready s) s

-- `CloseSession`, which is content where there is no session
unfoldable pub close_on : Bool → Ready → DeepgramTts → Done
close_on written (refused no_session) s = (s, [], none)
close_on written (refused fault) s = (s, [], some fault)
close_on true (on c) s = (s, writes c close_stream ∷ [], none)
close_on false (on c) s = (s, [], some write_failed)

unfoldable pub close_session : Bool → DeepgramTts → Done
unfolding close_on ready
close_session written s = close_on written (ready s) s
