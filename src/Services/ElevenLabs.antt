-- ===== src/Services/ElevenLabs.antt =====
-- The text-to-speech service of ElevenLabs, services/elevenlabs/tts/tts.go: its connection, whose
-- first message is a greeting, its session, and the texts that it sends. A connection and a session
-- are numbers. What gorilla/websocket and the decoders of JSON and base64 answer is an input. The
-- settings of the voice, which the greeting carries, are left out.
pub mod Reader
pub mod Resets
pub mod Greeted
pub mod Ordered
pub mod Runs
use interact_kit_sdk.Audio.Bytes.{Bytes}
use interact_kit_sdk.Services.Shared.{
  interrupted, unreachable, connected, is_session, default_text, Dialled,
}
use interact_kit_sdk.Text.{codes, Text, is_empty}
use interact_kit_sdk.Prelude.{
  ℕ, Bool, true, false, not, ◌&&◌, Option, none, some, List, [], ◌∷◌, ◌++◌, if◌then◌else◌, is_some,
}

-- `ElevenLabsTTSConfig`
pub record VoiceConfig : Type 0 where
  pub api_key : Text
  pub base_url : Text
  pub voice_id : Text
  pub model_id : Text

-- `elBOSMessage` and `elTextMessage`
pub data Message : Type 0 where
  greeting : Message
  says : Text → Message

-- the errors that the functions return
pub data Fault : Type 0 where
  api_key_required not_initialized no_session empty_text nil_out nil_error nil_done refused_dials
        context_done greeting_failed write_failed :
      Fault

-- `ElevenLabsTTS`. `ended` are the sessions whose channels were set to nil, and `cancelled` is that
-- the context is done.
pub record ElevenLabsTts : Type 0 where
  pub config : VoiceConfig
  pub conn : Option ℕ
  pub current_session : Option ℕ
  pub ended : List ℕ
  pub cancelled : Bool
  pub heartbeat_started : Bool
  pub is_initialized : Bool

-- What the service does to its connections, to the channels of a session and to its goroutines.
-- A write is one that succeeded; `closes` sends the closing frame, whatever comes of it, and closes.
pub data Effect : Type 0 where
  writes : ℕ → Message → Effect
  closes : ℕ → Effect
  emits : ℕ → Bytes → Effect
  reports : ℕ → Text → Effect
  starts_reader : ℕ → Effect
  starts_heartbeat : Effect

-- the new state, what was done, and the error that is returned
abbrev pub Done : Type 0
Done = ElevenLabsTts × List Effect × Option Fault

-- `NewElevenLabsTTS`
unfoldable pub new_tts : VoiceConfig → ElevenLabsTts
new_tts config = record {
  config = record config {
    base_url = default_text config.base_url (codes "wss://api.elevenlabs.io/v1/text-to-speech");
    voice_id = default_text config.voice_id (codes "21m00Tcm4TlvDq8ikWAM");
    model_id = default_text config.model_id (codes "eleven_turbo_v2_5");
  };
  conn = none;
  current_session = none;
  ended = [];
  cancelled = false;
  heartbeat_started = false;
  is_initialized = false;
}

-- `Initialize`
unfoldable pub initialize : ElevenLabsTts → Done
initialize s =
    if s.is_initialized
    then (s, [], none)
    else if is_empty s.config.api_key
    then (s, [], some api_key_required)
    else (record s { cancelled = false; is_initialized = true }, [], none)

-- `closeConnectionLocked`, for the connection that the state has
unfoldable pub close_conn : Option ℕ → ElevenLabsTts → ElevenLabsTts × List Effect
close_conn none s = (s, [])
close_conn (some c) s = (record s { conn = none }, closes c ∷ [])

unfoldable pub close_connection : ElevenLabsTts → ElevenLabsTts × List Effect
unfolding close_conn
close_connection s = close_conn s.conn s

-- `cleanupSessionLocked`
unfoldable pub cleanup_session : ℕ → ElevenLabsTts → ElevenLabsTts × List Effect
unfolding close_connection
cleanup_session session s =
    let (closed, out) = close_connection (record s { ended = session ∷ s.ended }) in
    (
      record closed {
        current_session = if is_session session s.current_session then none else s.current_session;
      },
      out,
    )

unfoldable pub cleanup_current : Option ℕ → ElevenLabsTts → ElevenLabsTts × List Effect
unfolding cleanup_session
cleanup_current none s = (s, [])
cleanup_current (some session) s = cleanup_session session s

-- `Cleanup`, after the wait for the heartbeat
unfoldable pub cleanup : ElevenLabsTts → Done
unfolding close_connection
cleanup s =
    let (closed, out) = close_connection (record s { cancelled = true }) in
    if s.is_initialized
    then (
      record closed { current_session = none; is_initialized = false; heartbeat_started = false },
      out,
      none,
    )
    else (s, [], none)

-- the address that `dialConnection` dials
unfoldable pub dial_url : VoiceConfig → Text
dial_url config =
    config.base_url
    ++ (codes "/"
        ++ (config.voice_id
            ++ (codes "/stream-input?model_id="
                ++ (config.model_id ++ codes "&output_format=pcm_24000"))))

-- The end of `StartTTSSession`, with whether the greeting is written.
unfoldable pub open_session : ℕ → Dialled → Bool → ElevenLabsTts × List Effect → Done
open_session session (connected c) true (s, out) = (
  record s { conn = some c; current_session = some session; heartbeat_started = true },
  out ++ (writes c greeting ∷ starts_reader session ∷ starts_heartbeat ∷ []),
  none,
)
open_session session (connected c) false (s, out) =
    (record s { conn = none; current_session = none }, out ++ closes c ∷ [], some greeting_failed)
open_session session unreachable written (s, out) = (s, out, some refused_dials)
open_session session interrupted written (s, out) = (s, out, some context_done)

-- `StartTTSSession`, where each flag says that the channel is not nil
unfoldable pub start_session : Bool → Bool → Bool → ℕ → Dialled → Bool → ElevenLabsTts → Done
unfolding open_session cleanup_current
start_session has_out has_error has_done session dialled written s =
    if not s.is_initialized
    then (s, [], some not_initialized)
    else if not has_out
    then (s, [], some nil_out)
    else if not has_error
    then (s, [], some nil_error)
    else if not has_done
    then (s, [], some nil_done)
    else open_session session dialled written (cleanup_current s.current_session s)

-- The end of `reconnect`, and that of `Reset`: the new connection, once it is greeted.
unfoldable pub reconnected : Dialled → Bool → ElevenLabsTts × List Effect → Done
reconnected (connected c) true (s, out) =
    (record s { conn = some c }, out ++ writes c greeting ∷ [], none)
reconnected (connected c) false (s, out) = (s, out ++ closes c ∷ [], some greeting_failed)
reconnected unreachable written (s, out) = (s, out, some refused_dials)
reconnected interrupted written (s, out) = (s, out, some context_done)

-- `reconnect`
unfoldable pub reconnect : Dialled → Bool → ElevenLabsTts → Done
unfolding reconnected close_connection
reconnect dialled written s = reconnected dialled written (close_connection s)

-- The tests with which `BufferText`, `Flush` and `Reset` begin.
pub data Ready : Type 0 where
  refused : Fault → Ready
  on : ℕ → Ready

abbrev pub ready_on : Bool → Option ℕ → Option ℕ → Ready
ready_on false c session = refused not_initialized
ready_on true none session = refused no_session
ready_on true (some c) none = refused no_session
ready_on true (some c) (some session) = on c

unfoldable pub ready : ElevenLabsTts → Ready
ready s = ready_on s.is_initialized s.conn s.current_session

-- a text to the connection, where its write succeeds
unfoldable pub say_on : Bool → Text → Ready → ElevenLabsTts → Done
say_on written t (refused fault) s = (s, [], some fault)
say_on true t (on c) s = (s, writes c (says t) ∷ [], none)
say_on false t (on c) s = (s, [], some write_failed)

unfoldable pub buffer_on : Bool → Text → Ready → ElevenLabsTts → Done
unfolding say_on
buffer_on written t (refused fault) s = (s, [], some fault)
buffer_on written [] (on c) s = (s, [], some empty_text)
buffer_on written (x ∷ xs) (on c) s = say_on written (x ∷ xs) (on c) s

-- `BufferText`
unfoldable pub buffer_text : Bool → Text → ElevenLabsTts → Done
unfolding buffer_on ready
buffer_text written t s = buffer_on written t (ready s) s

-- `Flush`: an empty text ends the stream
unfoldable pub flush : Bool → ElevenLabsTts → Done
unfolding say_on ready
flush written s = say_on written [] (ready s) s

-- `Reset`, which connects anew while the reader of the connection still reads the old one
unfoldable pub reset_on : Dialled → Bool → Ready → ElevenLabsTts → Done
unfolding reconnected close_connection
reset_on dialled written (refused fault) s = (s, [], some fault)
reset_on dialled written (on c) s = reconnected dialled written (close_connection s)

unfoldable pub reset : Dialled → Bool → ElevenLabsTts → Done
unfolding reset_on ready
reset dialled written s = reset_on dialled written (ready s) s

-- `IsConnected`
unfoldable pub is_connected : ElevenLabsTts → Bool
is_connected s = is_some s.conn && is_some s.current_session
