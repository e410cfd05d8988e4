-- ===== src/Services/DeepgramTts/Socket.antt =====
-- The state of services/deepgram/tts/tts.go and the functions that open and close its connection:
-- `Initialize`, `Cleanup`, `StartTTSSession`, `establishConnection`, `reconnect`, `UpdateConfig`,
-- `closeConnectionLocked` and `cleanupSessionLocked`.
use interact_kit_sdk.Services.Shared.{
  interrupted, unreachable, connected, Dialled, is_session, default_text,
}
use interact_kit_sdk.Audio.Bytes.{Bytes}
use interact_kit_sdk.Text.{is_empty, text_eq, codes, Text}
use interact_kit_sdk.Prelude.{
  ℕ, Bool, true, false, not, ◌&&◌, ◌||◌, Option, none, some, List, [], ◌∷◌, ◌++◌, if◌then◌else◌,
  is_some,
}

-- `DepgramTTSConfig`
pub record TtsConfig : Type 0 where
  pub api_key : Text
  pub base_url : Text
  pub model : Text

-- The messages to the server, as they are given to `sendJSON`; Encoding has what it makes of them.
pub data Frame : Type 0 where
  speak : Bytes → Frame
  flush clear close_stream : Frame

-- The errors that the functions return. `refused_dials` is that of three failed attempts.
pub data Fault : Type 0 where
  api_key_required api_key_empty not_initialized no_session empty_text nil_out nil_error nil_done
        refused_dials context_done write_failed :
      Fault

-- `DepgramTTS`. `ended` are the sessions whose channels were set to nil, `cancelled` is that the
-- context is done, and `heartbeat_done` that the channel of that name is there.
pub record DeepgramTts : Type 0 where
  pub config : TtsConfig
  pub conn : Option ℕ
  pub current_session : Option ℕ
  pub ended : List ℕ
  pub cancelled : Bool
  pub heartbeat_done : Bool
  pub heartbeat_started : Bool
  pub char_count : ℕ
  pub is_initialized : Bool

-- What the service does to its connections, to the channels of a session and to its goroutines.
-- A write is one that succeeded; `closes` sends the closing frame, whatever comes of it, and closes.
pub data Effect : Type 0 where
  writes : ℕ → Frame → Effect
  closes : ℕ → Effect
  emits : ℕ → Bytes → Effect
  reports : ℕ → Text → Effect
  starts_reader : ℕ → Effect
  starts_heartbeat : Effect

-- the new state, what was done, and the error that is returned
abbrev pub Done : Type 0
Done = DeepgramTts × List Effect × Option Fault

-- `NewDepgramTTS`
unfoldable pub new_tts : TtsConfig → DeepgramTts
new_tts config = record {
  config = record config {
    base_url = default_text config.base_url (codes "wss://api.deepgram.com/v1/speak");
    model = default_text config.model (codes "aura-2-arcas-en");
  };
  conn = none;
  current_session = none;
  ended = [];
  cancelled = false;
  heartbeat_done = true;
  heartbeat_started = false;
  char_count = 0;
  is_initialized = false;
}

-- `Initialize`
unfoldable pub initialize : DeepgramTts → DeepgramTts × Option Fault
initialize s =
    if s.is_initialized
    then (s, none)
    else if is_empty s.config.api_key
    then (s, some api_key_required)
    else (record s { cancelled = false; heartbeat_done = true; is_initialized = true }, none)

-- `closeConnectionLocked`, for the connection that the state has
unfoldable pub close_conn : Option ℕ → DeepgramTts → DeepgramTts × List Effect
close_conn none s = (s, [])
close_conn (some c) s = (record s { conn = none }, closes c ∷ [])

unfoldable pub close_connection : DeepgramTts → DeepgramTts × List Effect
unfolding close_conn
close_connection s = close_conn s.conn s

-- `cleanupSessionLocked`
unfoldable pub cleanup_session : ℕ → DeepgramTts → DeepgramTts × List Effect
unfolding close_connection
cleanup_session session s =
    let (closed, out) = close_connection (record s { ended = session ∷ s.ended }) in
    (
      record closed {
        current_session = if is_session session s.current_session then none else s.current_session;
      },
      out,
    )

-- the cleanup of the session that there is, if any
unfoldable pub cleanup_current : Option ℕ → DeepgramTts → DeepgramTts × List Effect
unfolding cleanup_session
cleanup_current none s = (s, [])
cleanup_current (some session) s = cleanup_session session s

-- `Cleanup`, after the wait for the heartbeat
unfoldable pub cleanup : DeepgramTts → DeepgramTts × List Effect
unfolding close_connection
cleanup s =
    let (closed, out) = close_connection (record s { cancelled = true }) in
    if s.is_initialized
    then (
      record closed { current_session = none; is_initialized = false; heartbeat_started = false },
      out,
    )
    else (s, [])

-- the address that `dialConnection` dials, and its `Authorization` header
unfoldable pub dial_url : TtsConfig → Text
dial_url config =
    config.base_url
    ++ (codes "?model=" ++ (config.model ++ codes "&encoding=linear16&sample_rate=24000"))

unfoldable pub authorization : TtsConfig → Text
authorization config = codes "Token " ++ config.api_key

-- a new session on a connection: the end of `StartTTSSession`
unfoldable pub open_session : ℕ → Dialled → DeepgramTts × List Effect → Done
open_session session (connected c) (s, out) = (
  record s { conn = some c; current_session = some session; heartbeat_started = true },
  out ++ (starts_reader session ∷ starts_heartbeat ∷ []),
  none,
)
open_session session unreachable (s, out) = (s, out, some refused_dials)
open_session session interrupted (s, out) = (s, out, some context_done)

-- `StartTTSSession`, where each flag says that the channel is not nil
unfoldable pub start_session : Bool → Bool → Bool → ℕ → Dialled → DeepgramTts → Done
unfolding open_session cleanup_current
start_session has_out has_error has_done session dialled s =
    if not s.is_initialized
    then (s, [], some not_initialized)
    else if not has_out
    then (s, [], some nil_out)
    else if not has_error
    then (s, [], some nil_error)
    else if not has_done
    then (s, [], some nil_done)
    else open_session session dialled (cleanup_current s.current_session s)

-- The end of `reconnect`. The connection is new, and so is the buffer of the server.
unfoldable pub reconnected : Dialled → DeepgramTts × List Effect → Done
reconnected (connected c) (s, out) = (record s { conn = some c; char_count = 0 }, out, none)
reconnected unreachable (s, out) = (s, out, some refused_dials)
reconnected interrupted (s, out) = (s, out, some context_done)

-- `reconnect`
unfoldable pub reconnect : Dialled → DeepgramTts → Done
unfolding reconnected close_connection
reconnect dialled s = reconnected dialled (close_connection s)

-- `UpdateConfig`
unfoldable pub update_config : TtsConfig → DeepgramTts → Done
unfolding cleanup_current
update_config config s =
    let changed =
      not (text_eq s.config.api_key config.api_key)
      || not (text_eq s.config.base_url config.base_url)
      || not (text_eq s.config.model config.model) in
    let fresh = record s { config = config } in
    let (closed, out) = cleanup_current s.current_session fresh in
    if not s.is_initialized
    then (s, [], some not_initialized)
    else if is_empty config.api_key
    then (s, [], some api_key_empty)
    else if changed
    then (closed, out, none)
    else (fresh, [], none)

-- `IsConnected`
unfoldable pub is_connected : DeepgramTts → Bool
is_connected s = is_some s.conn && is_some s.current_session

-- The tests with which `BufferText`, `Flush`, `Reset` and `CloseSession` begin.
pub data Ready : Type 0 where
  refused : Fault → Ready
  on : ℕ → Ready

abbrev pub ready_on : Bool → Option ℕ → Option ℕ → Ready
ready_on false c session = refused not_initialized
ready_on true none session = refused no_session
ready_on true (some c) none = refused no_session
ready_on true (some c) (some session) = on c

unfoldable pub ready : DeepgramTts → Ready
ready s = ready_on s.is_initialized s.conn s.current_session
