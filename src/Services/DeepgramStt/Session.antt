-- ===== src/Services/DeepgramStt/Session.antt =====
-- The session of services/deepgram/stt/stt.go: `runSession` and `connectAndListen`, as rounds over
-- what its dials and its reads bring.
use interact_kit_sdk.Services.DeepgramStt.{
  session_error, handle_message, SttMessage, Effect, DeepgramStt, close_connection,
}
use interact_kit_sdk.Text.{codes, Text}
use interact_kit_sdk.Prelude.{
  ℕ, suc, Bool, true, not, ◌&&◌, some, List, [], ◌∷◌, ◌++◌, if◌then◌else◌,
}

-- Where the session stands: about to dial, in the loop that reads a connection, in the wait before
-- it dials again, or returned.
pub data Phase : Type 0 where
  dialling waiting over : Phase
  listening : ℕ → Phase

-- What comes next, with whether a channel that it is sent to has room: the outcome of a dial or of
-- a read, the end of the wait, or that of the context.
pub data Next : Type 0 where
  dialled : ℕ → Next
  not_dialled : Text → Bool → Next
  read_failed : Text → Bool → Next
  reads : Bool → Bool → SttMessage → Next
  reads_binary waited context_ends : Next

-- `StartTranscriptionSession`, with whether its channels are there, and where its goroutine goes
-- at the first test of `runSession`
unfoldable pub start_session : Bool → Bool → Bool → DeepgramStt → DeepgramStt × Phase
start_session out interim errors s = (
  record s { has_out = out; has_interim = interim; has_errors = errors },
  if s.is_done then over else dialling,
)

-- the error that ends `connectAndListen`, in `runSession`
unfoldable pub report_error : Text → Bool → DeepgramStt → List Effect
report_error e room s =
    if not s.is_done && s.has_errors && room
    then session_error (codes "Deepgram session error: " ++ e) ∷ []
    else []

-- where the session goes after an error
abbrev pub after_error : DeepgramStt → Phase
after_error s = if s.is_done then over else waiting

unfoldable pub session_step : Phase → Next → DeepgramStt → DeepgramStt × List Effect × Phase
unfolding report_error close_connection handle_message
session_step dialling (dialled c) s =
    let linked : DeepgramStt = record s {
      conn = some c;
      is_connected = true;
      keep_alives = suc s.keep_alives;
    } in
    let (closed, out) = close_connection linked in
    if s.is_done then (closed, out, over) else (linked, [], listening c)
session_step dialling (not_dialled e room) s =
    (s, report_error (codes "failed to connect to Deepgram: " ++ e) room s, after_error s)
session_step (listening c) (read_failed e room) s =
    let (closed, out) = close_connection s in
    (closed, out ++ report_error (codes "error reading message: " ++ e) room s, after_error s)
session_step (listening c) (reads room interim_room m) s =
    let (closed, out) = close_connection s in
    let sent = handle_message room interim_room m s in
    if s.is_done then (closed, sent ++ out, over) else (s, sent, listening c)
session_step (listening c) reads_binary s =
    let (closed, out) = close_connection s in
    if s.is_done then (closed, out, over) else (s, [], listening c)
session_step waiting waited s = (s, [], if s.is_done then over else dialling)
session_step waiting context_ends s = (record s { is_done = true }, [], over)
session_step phase context_ends s = (record s { is_done = true }, [], phase)
session_step phase next s = (s, [], phase)

unfoldable pub session_run : List Next → Phase → DeepgramStt → DeepgramStt × List Effect × Phase
unfolding session_step
session_run [] phase s = (s, [], phase)
session_run (n ∷ ns) phase s =
    let (next, out, phase') = session_step phase n s in
    let (last, more, phase'') = session_run ns phase' next in (last, out ++ more, phase'')
