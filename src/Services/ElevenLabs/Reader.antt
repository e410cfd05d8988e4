-- ===== src/Services/ElevenLabs/Reader.antt =====
-- The goroutines of services/elevenlabs/tts/tts.go: `handleIncomingMessages` with
-- `handleTextMessage` and `sendError`, and `heartbeat`.
use interact_kit_sdk.Audio.Bytes.{
  Bytes, Bytes, Bytes, Bytes, Bytes, Bytes, Bytes, Bytes, Bytes, Bytes, Bytes, Bytes, Bytes, Bytes,
  Bytes, Bytes, Bytes, Bytes, Bytes, Bytes, Bytes, Bytes, Bytes, Bytes, Bytes, Bytes, Bytes, Bytes,
  Bytes, Bytes, Bytes, Bytes, Bytes, Bytes, Bytes, Bytes, Bytes, Bytes, Bytes,
}
use interact_kit_sdk.Services.ElevenLabs.{
  emits, reports, Done, cleanup_session, close_connection, Effect, reconnect, ElevenLabsTts,
}
use interact_kit_sdk.Text.{
  Text, Text, Text, Text, Text, Text, Text, Text, Text, Text, Text, Text, Text, Text, Text, Text,
  Text, Text, Text, Text, Text, Text, Text, Text, Text, Text, Text, Text, Text, Text, Text, Text,
  Text, Text, Text, Text, is_empty, Text, Text, codes, text_eq, Text,
}
use interact_kit_sdk.Services.Shared.{
  Dialled, Dialled, Dialled, Dialled, Dialled, Dialled, Dialled, Dialled, Dialled, Dialled, Dialled,
  Dialled, Dialled, Dialled, Dialled, Dialled, Dialled, Dialled, Dialled, Dialled, Dialled, Dialled,
  Dialled, Dialled, Dialled, Dialled, Dialled, Dialled, Dialled, Dialled, Dialled, Dialled, Dialled,
  Dialled, Dialled, Dialled, is_session, Dialled, Dialled, holds, Dialled,
}
use interact_kit_sdk.Prelude.{
  ℕ, Bool, true, false, not, ◌&&◌, Option, none, some, List, [], ◌∷◌, ◌++◌, if◌then◌else◌,
}

-- A text message whose JSON decodes: its fields `error` and `audio` as they stand, if they are
-- there, the message and the code of the error where it decodes, and the audio where that does.
pub record Decoded : Type 0 where
  pub error_field : Option Text
  pub error_details : Option (Text × Text)
  pub audio_field : Option Text
  pub audio : Option Text

-- What a read brings: an error, with the attempts to connect after it and whether the greeting is
-- written, or a message.
pub data Incoming : Type 0 where
  read_failed : Dialled → Bool → Incoming
  binary : Bytes → Incoming
  message_of : Option Decoded → Incoming

-- Where a reader stands: at the top of its loop, in a read of a connection, or returned.
pub data Reading : Type 0 where
  at_top returned : Reading
  reads : ℕ → Reading

-- `sendError`, with whether the channel has room
unfoldable pub send_error : ℕ → Bool → Text → ElevenLabsTts → List Effect
unfolding holds
send_error session room t s =
    if not (holds session s.ended) && room then reports session t ∷ [] else []

-- audio for a session, which is dropped where the channel is full, or nil
unfoldable pub send_audio : ℕ → Bool → Bytes → ElevenLabsTts → List Effect
unfolding holds
send_audio session room bytes s =
    if not (holds session s.ended) && room then emits session bytes ∷ [] else []

-- Is a field there, and not null?
unfoldable pub is_present : Option Text → Bool
is_present none = false
is_present (some t) = not (text_eq t (codes "null"))

-- the text of an error
unfoldable pub error_text : Option Text → Option (Text × Text) → Text
error_text field (some (message, code)) =
    codes "ElevenLabs error: " ++ (message ++ (codes " (code: " ++ (code ++ codes ")")))
error_text none none = codes "ElevenLabs error: "
error_text (some t) none = codes "ElevenLabs error: " ++ t

module _ (decode64 : Text → Option Bytes) where
  abbrev pub send_decoded : ℕ → Bool → Option Bytes → ElevenLabsTts → List Effect
  send_decoded session room none s = []
  send_decoded session room (some bytes) s = send_audio session room bytes s

  -- the audio of a message, where it decodes and is not empty
  unfoldable pub audio_of : ℕ → Bool → Option Text → ElevenLabsTts → List Effect
  unfolding send_audio
  audio_of session room none s = []
  audio_of session room (some t) s =
      if is_empty t then [] else send_decoded session room (decode64 t) s

  -- `handleTextMessage`, where `none` is a message that does not parse
  unfoldable pub handle_text : ℕ → Bool → Option Decoded → ElevenLabsTts → List Effect
  unfolding send_error is_present error_text audio_of
  handle_text session room none s = []
  handle_text session room (some m) s =
      if is_present m.error_field
      then send_error session room (error_text m.error_field m.error_details) s
      else if is_present m.audio_field
      then audio_of session room m.audio s
      else []

-- the deferred function of `handleIncomingMessages`
unfoldable pub finish_reader : ℕ → ElevenLabsTts → ElevenLabsTts × List Effect
unfolding cleanup_session
finish_reader session s =
    if is_session session s.current_session then cleanup_session session s else (s, [])

-- What follows an attempt to reconnect: the next round, or an error and the end of the reader.
unfoldable pub after_reconnect : ℕ → Bool → Text → Done → ElevenLabsTts × List Effect × Reading
unfolding send_error finish_reader
after_reconnect session room t (s, out, none) = (s, out, at_top)
after_reconnect session room t (s, out, some fault) =
    let (ended, last) = finish_reader session s in
    (ended, out ++ (send_error session room t s ++ last), returned)

-- The top of the loop, with the attempts to connect that follow where there is no connection, and
-- the text of their error.
unfoldable pub reader_top_on :
    ℕ
    → Bool
    → Dialled
    → Bool
    → Text
    → Option ℕ
    → ElevenLabsTts
    → ElevenLabsTts × List Effect × Reading
unfolding after_reconnect reconnect
reader_top_on session room dialled written e (some c) s = (s, [], reads c)
reader_top_on session room dialled written e none s =
    after_reconnect session room (codes "reconnect failed: " ++ e) (reconnect dialled written s)

unfoldable pub reader_top :
    ℕ → Bool → Dialled → Bool → Text → ElevenLabsTts → ElevenLabsTts × List Effect × Reading
unfolding reader_top_on finish_reader
reader_top session room dialled written e s =
    let (ended, out) = finish_reader session s in
    if s.cancelled
    then (ended, out, returned)
    else reader_top_on session room dialled written e s.conn s

-- The end of a read. Nothing tells whether the connection that was read is still the service's.
unfoldable pub reader_read :
    (Text → Option Bytes)
    → ℕ
    → Bool
    → Text
    → Incoming
    → ElevenLabsTts
    → ElevenLabsTts × List Effect × Reading
unfolding after_reconnect reconnect finish_reader send_audio handle_text
reader_read decode64 session room e (read_failed dialled written) s =
    let (ended, out) = finish_reader session s in
    let again =
      after_reconnect session room (codes "reconnect failed after read error: " ++ e)
        (reconnect dialled written s) in
    if s.cancelled then (ended, out, returned) else again
reader_read decode64 session room e (binary bytes) s = (s, send_audio session room bytes s, at_top)
reader_read decode64 session room e (message_of m) s =
    (s, handle_text decode64 session room m s, at_top)

-- A tick of `heartbeat`, with the outcome of the ping to the connection that it took.
unfoldable pub heartbeat_tick : Option ℕ → Bool → ElevenLabsTts → ElevenLabsTts × List Effect
unfolding close_connection
heartbeat_tick none fine s = (s, [])
heartbeat_tick (some c) true s = (s, [])
heartbeat_tick (some c) false s = close_connection s
