-- ===== src/Services/Cartesia.antt =====
-- The text-to-speech service of Cartesia, services/cartesia/tts/tts.go: its connection, its session,
-- and the contexts under which it sends texts. A connection and a session are numbers. What
-- gorilla/websocket and the decoders of JSON and base64 answer is an input, and so are the random
-- UUIDs: `uuid n` is the n-th that is drawn. A call of a function runs whole before the next.
pub mod Reader
pub mod Contexts
pub mod Rotation
pub mod Utterances
use interact_kit_sdk.Audio.Bytes.{Bytes}
use interact_kit_sdk.Services.Shared.{
  interrupted, unreachable, connected, default_text, is_session, Dialled,
}
use interact_kit_sdk.Text.{codes, is_empty, Text}
use interact_kit_sdk.Prelude.{
  ℕ, suc, Bool, true, false, not, Option, none, some, List, [], ◌∷◌, ◌++◌, if◌then◌else◌,
}

-- `CartesiaTTSConfig`
pub record CartesiaConfig : Type 0 where
  pub api_key : Text
  pub base_url : Text
  pub model_id : Text
  pub voice_id : Text
  pub language : Text
  pub api_version : Text

-- `cartesiaTTSRequest`, without the settings that are the same in all
pub record Request : Type 0 where
  pub request_model : Text
  pub transcript : Text
  pub request_voice : Text
  pub context_id : Text
  pub continues : Bool
  pub flushes : Bool
  pub request_language : Text

-- the messages to the server: `cartesiaTTSRequest` and `cartesiaCancelRequest`
pub data Message : Type 0 where
  requests : Request → Message
  cancels : Text → Message

-- the errors that the functions return
pub data Fault : Type 0 where
  api_key_required not_initialized no_session empty_text nil_out nil_error nil_done refused_dials
        context_done write_failed :
      Fault

-- `CartesiaTTS`, with the number of UUIDs drawn. `ended` are the sessions whose channels were set to
-- nil, and `cancelled` is that the context of the service is done.
pub record CartesiaTts : Type 0 where
  pub config : CartesiaConfig
  pub conn : Option ℕ
  pub current_session : Option ℕ
  pub ended : List ℕ
  pub cancelled : Bool
  pub heartbeat_started : Bool
  pub context : Text
  pub drawn : ℕ
  pub is_initialized : Bool

-- What the service does to its connections, to the channels of a session and to its goroutines.
-- A write is one that succeeded; `closes` sends the closing frame, whatever comes of it, and closes.
pub data Effect : Type 0 where
  writes : ℕ → Message → Effect
  closes : ℕ → Effect
  emits : ℕ → Bytes → Effect
  reports : ℕ → Text → Effect
  starts_reader : ℕ → Effect
  starts_heartbeat : Effect

-- the new state, what was done, and the error that is returned
abbrev pub Done : Type 0
Done = CartesiaTts × List Effect × Option Fault

-- `NewCartesiaTTS`
unfoldable pub new_tts : CartesiaConfig → CartesiaTts
new_tts config = record {
  config = record config {
    base_url = default_text config.base_url (codes "wss://api.cartesia.ai/tts/websocket");
    model_id = default_text config.model_id (codes "sonic-2");
    voice_id = default_text config.voice_id (codes "a0e99841-438c-4a64-b679-ae501e7d6091");
    api_version = default_text config.api_version (codes "2024-11-13");
    language = default_text config.language (codes "en");
  };
  conn = none;
  current_session = none;
  ended = [];
  cancelled = false;
  heartbeat_started = false;
  context = [];
  drawn = 0;
  is_initialized = false;
}

-- `closeConnectionLocked`, for the connection that the state has
unfoldable pub close_conn : Option ℕ → CartesiaTts → CartesiaTts × List Effect
close_conn none s = (s, [])
close_conn (some c) s = (record s { conn = none }, closes c ∷ [])

unfoldable pub close_connection : CartesiaTts → CartesiaTts × List Effect
unfolding close_conn
close_connection s = close_conn s.conn s

-- `cleanupSessionLocked`
unfoldable pub cleanup_session : ℕ → CartesiaTts → CartesiaTts × List Effect
unfolding close_connection
cleanup_session session s =
    let (closed, out) = close_connection (record s { ended = session ∷ s.ended }) in
    (
      record closed {
        current_session = if is_session session s.current_session then none else s.current_session;
      },
      out,
    )

unfoldable pub cleanup_current : Option ℕ → CartesiaTts → CartesiaTts × List Effect
unfolding cleanup_session
cleanup_current none s = (s, [])
cleanup_current (some session) s = cleanup_session session s

-- `Cleanup`, after the wait for the heartbeat
unfoldable pub cleanup : CartesiaTts → Done
unfolding close_connection
cleanup s =
    let (closed, out) = close_connection (record s { cancelled = true }) in
    if s.is_initialized
    then (
      record closed { current_session = none; is_initialized = false; heartbeat_started = false },
      out,
      none,
    )
    else (s, [], none)

-- the address that `dialConnection` dials
unfoldable pub dial_url : CartesiaConfig → Text
dial_url config =
    config.base_url
    ++ (codes "?api_key=" ++ (config.api_key ++ (codes "&cartesia_version=" ++ config.api_version)))

-- the end of `StartTTSSession`
unfoldable pub open_session : ℕ → Dialled → CartesiaTts × List Effect → Done
open_session session (connected c) (s, out) = (
  record s { conn = some c; current_session = some session; heartbeat_started = true },
  out ++ (starts_reader session ∷ starts_heartbeat ∷ []),
  none,
)
open_session session unreachable (s, out) = (s, out, some refused_dials)
open_session session interrupted (s, out) = (s, out, some context_done)

-- `StartTTSSession`, where each flag says that the channel is not nil
unfoldable pub start_session : Bool → Bool → Bool → ℕ → Dialled → CartesiaTts → Done
unfolding open_session cleanup_current
start_session has_out has_error has_done session dialled s =
    if not s.is_initialized
    then (s, [], some not_initialized)
    else if not has_out
    then (s, [], some nil_out)
    else if not has_error
    then (s, [], some nil_error)
    else if not has_done
    then (s, [], some nil_done)
    else open_session session dialled (cleanup_current s.current_session s)

unfoldable pub reconnected : Dialled → CartesiaTts × List Effect → Done
reconnected (connected c) (s, out) = (record s { conn = some c }, out, none)
reconnected unreachable (s, out) = (s, out, some refused_dials)
reconnected interrupted (s, out) = (s, out, some context_done)

-- `reconnect`
unfoldable pub reconnect : Dialled → CartesiaTts → Done
unfolding reconnected close_connection
reconnect dialled s = reconnected dialled (close_connection s)

-- `buildRequest`
unfoldable pub build_request : CartesiaConfig → Text → Text → Bool → Bool → Request
build_request config transcript id continue_ flush = record {
  request_model = config.model_id;
  transcript = transcript;
  request_voice = config.voice_id;
  context_id = id;
  continues = continue_;
  flushes = flush;
  request_language = config.language;
}

-- The tests with which `BufferText`, `Flush` and `Reset` begin.
pub data Ready : Type 0 where
  refused : Fault → Ready
  on : ℕ → Ready

abbrev pub ready_on : Bool → Option ℕ → Option ℕ → Ready
ready_on false c session = refused not_initialized
ready_on true none session = refused no_session
ready_on true (some c) none = refused no_session
ready_on true (some c) (some session) = on c

unfoldable pub ready : CartesiaTts → Ready
ready s = ready_on s.is_initialized s.conn s.current_session

unfoldable pub buffer_on : Bool → Text → Ready → CartesiaTts → Done
unfolding build_request
buffer_on written t (refused fault) s = (s, [], some fault)
buffer_on written [] (on c) s = (s, [], some empty_text)
buffer_on true (x ∷ xs) (on c) s =
    (s, writes c (requests (build_request s.config (x ∷ xs) s.context true false)) ∷ [], none)
buffer_on false (x ∷ xs) (on c) s = (s, [], some write_failed)

-- `BufferText`
unfoldable pub buffer_text : Bool → Text → CartesiaTts → Done
unfolding buffer_on ready
buffer_text written t s = buffer_on written t (ready s) s

module _ (uuid : ℕ → Text) where
  -- `newContextID`
  unfoldable pub rotate : CartesiaTts → CartesiaTts
  rotate s = record s { context = uuid s.drawn; drawn = suc s.drawn }

  -- `Initialize`
  unfoldable pub initialize : CartesiaTts → Done
  unfolding rotate
  initialize s =
      if s.is_initialized
      then (s, [], none)
      else if is_empty s.config.api_key
      then (s, [], some api_key_required)
      else (record (rotate s) { cancelled = false; is_initialized = true }, [], none)

  unfoldable pub flush_on : Bool → Ready → CartesiaTts → Done
  unfolding build_request rotate
  flush_on written (refused fault) s = (s, [], some fault)
  flush_on false (on c) s = (s, [], some write_failed)
  flush_on true (on c) s = (
    rotate s,
    writes c (requests (build_request s.config (codes " ") s.context false true)) ∷ [],
    none,
  )

  -- `Flush`
  unfoldable pub flush : Bool → CartesiaTts → Done
  unfolding flush_on ready
  flush written s = flush_on written (ready s) s

  -- The cancel message goes out after the change of context; its failure is only logged.
  unfoldable pub reset_on : Bool → Ready → CartesiaTts → Done
  unfolding rotate
  reset_on written (refused fault) s = (s, [], some fault)
  reset_on true (on c) s = (rotate s, writes c (cancels s.context) ∷ [], none)
  reset_on false (on c) s = (rotate s, [], none)

  -- `Reset`
  unfoldable pub reset : Bool → CartesiaTts → Done
  unfolding reset_on ready
  reset written s = reset_on written (ready s) s
