-- ===== src/Services/DeepgramTts/Reader.antt =====
-- The goroutines of services/deepgram/tts/tts.go: `handleIncomingMessages`, which reads a
-- connection for a session, with `handleTextMessage` and `sendError`, and `heartbeat`.
use interact_kit_sdk.Services.Shared.{holds, Dialled, is_session}
use interact_kit_sdk.Audio.Bytes.{Bytes}
use interact_kit_sdk.Text.{codes, Text}
use interact_kit_sdk.Services.DeepgramTts.Socket.{
  reports, emits, Done, Effect, reconnect, close_connection, DeepgramTts, cleanup_session,
}
use interact_kit_sdk.Prelude.{
  ℕ, Bool, true, false, not, ◌&&◌, Option, none, some, List, [], ◌∷◌, ◌++◌, if◌then◌else◌,
}

-- A text message as it is decoded. Where a kind says so, the decoding of its fields failed.
pub data ServerMessage : Type 0 where
  unparsable : Text → ServerMessage
  metadata flushed cleared warning malformed_error other : ServerMessage
  malformed_metadata : Text → ServerMessage
  error_message : Text → Text → ServerMessage

-- what a read brings: an error, with the attempts to connect after it, or a message
pub data Incoming : Type 0 where
  read_failed : Dialled → Incoming
  binary : Bytes → Incoming
  message_of : ServerMessage → Incoming

-- Where a reader stands: at the top of its loop, in a read of a connection, or returned.
pub data Reading : Type 0 where
  at_top returned : Reading
  reads : ℕ → Reading

-- `sendError`, with whether the channel has room
unfoldable pub send_error : ℕ → Bool → Text → DeepgramTts → List Effect
unfolding holds
send_error session room t s =
    if not (holds session s.ended) && room then reports session t ∷ [] else []

-- audio for a session, which is dropped where the channel is full, or nil
unfoldable pub send_audio : ℕ → Bool → Bytes → DeepgramTts → List Effect
unfolding holds
send_audio session room audio s =
    if not (holds session s.ended) && room then emits session audio ∷ [] else []

-- `handleTextMessage`
unfoldable pub handle_text : ℕ → Bool → ServerMessage → DeepgramTts → List Effect
unfolding send_error
handle_text session room (unparsable e) s =
    send_error session room (codes "failed to parse message: " ++ e) s
handle_text session room (malformed_metadata e) s =
    send_error session room (codes "failed to parse metadata: " ++ e) s
handle_text session room (error_message description code) s =
    send_error session room
      (codes "Deepgram error: " ++ (description ++ (codes " (code: " ++ (code ++ codes ")")))) s
handle_text session room metadata s = []
handle_text session room flushed s = []
handle_text session room cleared s = []
handle_text session room warning s = []
handle_text session room malformed_error s = []
handle_text session room other s = []

-- the deferred function of `handleIncomingMessages`
unfoldable pub finish_reader : ℕ → DeepgramTts → DeepgramTts × List Effect
unfolding cleanup_session
finish_reader session s =
    if is_session session s.current_session then cleanup_session session s else (s, [])

-- What follows an attempt to reconnect: the next round, or an error and the end of the reader.
unfoldable pub after_reconnect : ℕ → Bool → Text → Done → DeepgramTts × List Effect × Reading
unfolding send_error finish_reader
after_reconnect session room t (s, out, none) = (s, out, at_top)
after_reconnect session room t (s, out, some fault) =
    let (ended, last) = finish_reader session s in
    (ended, out ++ (send_error session room t s ++ last), returned)

-- The top of the loop, with the attempts to connect that follow where there is no connection, and
-- the text of their error.
unfoldable pub reader_top_on :
    ℕ → Bool → Dialled → Text → Option ℕ → DeepgramTts → DeepgramTts × List Effect × Reading
unfolding after_reconnect reconnect
reader_top_on session room dialled e (some c) s = (s, [], reads c)
reader_top_on session room dialled e none s =
    after_reconnect session room (codes "reconnect failed: " ++ e) (reconnect dialled s)

unfoldable pub reader_top :
    ℕ → Bool → Dialled → Text → DeepgramTts → DeepgramTts × List Effect × Reading
unfolding reader_top_on finish_reader
reader_top session room dialled e s =
    let (ended, out) = finish_reader session s in
    if s.cancelled then (ended, out, returned) else reader_top_on session room dialled e s.conn s

-- The end of a read. Nothing tells whether the connection that was read is still the service's.
unfoldable pub reader_read :
    ℕ → Bool → Text → Incoming → DeepgramTts → DeepgramTts × List Effect × Reading
unfolding after_reconnect reconnect finish_reader send_audio handle_text
reader_read session room e (read_failed dialled) s =
    let (ended, out) = finish_reader session s in
    let again =
      after_reconnect session room (codes "reconnect failed after read error: " ++ e)
        (reconnect dialled s) in
    if s.cancelled then (ended, out, returned) else again
reader_read session room e (binary audio) s = (s, send_audio session room audio s, at_top)
reader_read session room e (message_of m) s = (s, handle_text session room m s, at_top)

-- A tick of `heartbeat`, with the outcome of the ping to the connection that it took.
unfoldable pub heartbeat_tick : Option ℕ → Bool → DeepgramTts → DeepgramTts × List Effect
unfolding close_connection
heartbeat_tick none fine s = (s, [])
heartbeat_tick (some c) true s = (s, [])
heartbeat_tick (some c) false s = close_connection s
