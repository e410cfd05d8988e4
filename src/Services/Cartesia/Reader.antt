-- ===== src/Services/Cartesia/Reader.antt =====
-- What services/cartesia/tts/tts.go makes of a message: `handleTextMessage`, `forwardAudio` and
-- `sendError`; the rounds of `handleIncomingMessages`, and `heartbeat`.
use interact_kit_sdk.Text.{is_empty, codes, Text}
use interact_kit_sdk.Audio.Bytes.{Bytes}
use interact_kit_sdk.Services.Cartesia.{
  cancels, writes, codes, on, reports, emits, is_session, is_empty, Effect, ready, CartesiaTts,
  Done, cleanup_session, reset, reconnect, close_connection,
}
use interact_kit_sdk.Services.Shared.{is_session, Dialled, holds}
use interact_kit_sdk.Prelude.{
  ℕ, ◌≡◌, refl, Bool, true, false, not, ◌&&◌, Option, none, some, List, [], ◌∷◌, ◌++◌,
  if◌then◌else◌,
}

-- `cartesiaResponse`, by its type
pub data Response : Type 0 where
  chunk : Text → Text → Response
  error : Text → Text → Response
  done : Text → Response
  informational : Response

-- what a read brings: an error, with the attempts to connect after it, or a message
pub data Incoming : Type 0 where
  read_failed : Dialled → Incoming
  binary : Bytes → Incoming
  message_of : Option Response → Incoming

-- Where a reader stands: at the top of its loop, in a read of a connection, or returned.
pub data Reading : Type 0 where
  at_top returned : Reading
  reads : ℕ → Reading

-- `sendError`, with whether the channel has room
unfoldable pub send_error : ℕ → Bool → Text → CartesiaTts → List Effect
unfolding holds
send_error session room t s =
    if not (holds session s.ended) && room then reports session t ∷ [] else []

-- `forwardAudio`
unfoldable pub forward_audio : ℕ → Bool → Bytes → CartesiaTts → List Effect
unfolding holds
forward_audio session room bytes s =
    if not (holds session s.ended) && room then emits session bytes ∷ [] else []

abbrev pub forward_decoded : ℕ → Bool → Option Bytes → CartesiaTts → List Effect
forward_decoded session room none s = []
forward_decoded session room (some bytes) s = forward_audio session room bytes s

-- `handleTextMessage`, with the decoder of base64. A chunk has the id of its context and its data,
-- and `none` is a message that does not parse.
unfoldable pub handle_text :
    (Text → Option Bytes) → ℕ → Bool → Option Response → CartesiaTts → List Effect
unfolding send_error forward_audio
handle_text decode64 session room none s = []
handle_text decode64 session room (some (chunk id encoded)) s =
    if is_empty encoded then [] else forward_decoded session room (decode64 encoded) s
handle_text decode64 session room (some (error status e)) s =
    send_error session room (codes "cartesia error (status " ++ (status ++ (codes "): " ++ e))) s
handle_text decode64 session room (some (done id)) s = []
handle_text decode64 session room (some informational) s = []

-- the deferred function of `handleIncomingMessages`
unfoldable pub finish_reader : ℕ → CartesiaTts → CartesiaTts × List Effect
unfolding cleanup_session
finish_reader session s =
    if is_session session s.current_session then cleanup_session session s else (s, [])

-- What follows an attempt to reconnect: the next round, or an error and the end of the reader.
unfoldable pub after_reconnect : ℕ → Bool → Text → Done → CartesiaTts × List Effect × Reading
unfolding send_error finish_reader
after_reconnect session room t (s, out, none) = (s, out, at_top)
after_reconnect session room t (s, out, some fault) =
    let (ended, last) = finish_reader session s in
    (ended, out ++ (send_error session room t s ++ last), returned)

-- The top of the loop, with the attempts to connect that follow where there is no connection, and
-- the text of their error.
unfoldable pub reader_top_on :
    ℕ → Bool → Dialled → Text → Option ℕ → CartesiaTts → CartesiaTts × List Effect × Reading
unfolding after_reconnect reconnect
reader_top_on session room dialled e (some c) s = (s, [], reads c)
reader_top_on session room dialled e none s =
    after_reconnect session room (codes "cartesia: reconnect failed: " ++ e) (reconnect dialled s)

unfoldable pub reader_top :
    ℕ → Bool → Dialled → Text → CartesiaTts → CartesiaTts × List Effect × Reading
unfolding reader_top_on finish_reader
reader_top session room dialled e s =
    let (ended, out) = finish_reader session s in
    if s.cancelled then (ended, out, returned) else reader_top_on session room dialled e s.conn s

-- the end of a read
unfoldable pub reader_read :
    (Text → Option Bytes)
    → ℕ
    → Bool
    → Text
    → Incoming
    → CartesiaTts
    → CartesiaTts × List Effect × Reading
unfolding after_reconnect reconnect finish_reader forward_audio handle_text
reader_read decode64 session room e (read_failed dialled) s =
    let (ended, out) = finish_reader session s in
    let again =
      after_reconnect session room (codes "cartesia: reconnect failed after read error: " ++ e)
        (reconnect dialled s) in
    if s.cancelled then (ended, out, returned) else again
reader_read decode64 session room e (binary bytes) s =
    (s, forward_audio session room bytes s, at_top)
reader_read decode64 session room e (message_of m) s =
    (s, handle_text decode64 session room m s, at_top)

-- A tick of `heartbeat`, with the outcome of the ping to the connection that it took.
unfoldable pub heartbeat_tick : Option ℕ → Bool → CartesiaTts → CartesiaTts × List Effect
unfolding close_connection
heartbeat_tick none fine s = (s, [])
heartbeat_tick (some c) true s = (s, [])
heartbeat_tick (some c) false s = close_connection s

-- The audio of a context that `Reset` has cancelled and left goes to the session as that of any
-- other: in the state after the reset, a chunk whose context is the old one, and whose data is not
-- empty and decodes, is sent on, where the channel is there and has room.
pub cancelled_context_heard :
    (uuid : ℕ → Text) (decode64 : Text → Option Bytes) (session c x : ℕ) (xs : Text) (bytes : Bytes)
    (s : CartesiaTts)
    → ready s ≡ on c
    → decode64 (x ∷ xs) ≡ some bytes
    → holds session s.ended ≡ false
    → let (after, out, fault) = reset uuid true s in
      (out ≡ writes c (cancels s.context) ∷ [])
      × (handle_text decode64 session true (some (chunk s.context (x ∷ xs))) after
          ≡ emits session bytes ∷ [])
unfolding reset handle_text forward_audio
cancelled_context_heard uuid decode64 session c x xs bytes s r d h = rw (r, d, h) (refl, refl)
