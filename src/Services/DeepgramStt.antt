-- ===== src/Services/DeepgramStt.antt =====
-- The speech recognition service of Deepgram, services/deepgram/stt/stt.go: the query that it
-- connects with, its connection, and the transcripts that it passes on. A connection is a number.
-- What gorilla/websocket, net/url and the JSON decoder answer is an input.
pub mod Query
pub mod Session
pub mod Races
pub mod Declared
use interact_kit_sdk.Audio.Convert.{pcm, AudioChunk, Codecs, convert_audio_chunk}
use interact_kit_sdk.Audio.Wav.{err, ok, Result}
use interact_kit_sdk.Audio.Bytes.{Bytes}
use interact_kit_sdk.Text.{is_empty, Text}
use interact_kit_sdk.Prelude.{
  ℕ, Bool, true, false, not, ◌&&◌, ◌||◌, Option, none, some, List, [], ◌∷◌, if◌then◌else◌, is_some,
}

-- what the service sends
pub data Frame : Type 0 where
  audio_of : Bytes → Frame
  finalize keep_alive close_stream : Frame

-- `DeepgramSTTService`. The flags say that a channel is there and that the context is done, and
-- `keep_alives` counts the goroutines of `keepAlive` that were started.
pub record DeepgramStt : Type 0 where
  pub api_key : Text
  pub conn : Option ℕ
  pub is_connected : Bool
  pub has_out : Bool
  pub has_interim : Bool
  pub has_errors : Bool
  pub is_done : Bool
  pub keep_alives : ℕ

-- What the service does to its connections and its channels. `writes` is a write that succeeded,
-- `tries` one that is followed by the same whatever its outcome.
pub data Effect : Type 0 where
  writes tries : ℕ → Frame → Effect
  spawns_error_handler : Effect
  closes : ℕ → Effect
  final_text interim_text session_error : Text → Effect

-- `NewDeepgramSTTService`, with the API key of its configuration
unfoldable pub new_service : Text → DeepgramStt
new_service key = record {
  api_key = key;
  conn = none;
  is_connected = false;
  has_out = false;
  has_interim = false;
  has_errors = false;
  is_done = false;
  keep_alives = 0;
}

-- `Initialize` with a live context, and whether it returns without an error
unfoldable pub initialize : DeepgramStt → DeepgramStt × Bool
initialize s = if is_empty s.api_key then (s, false) else (record s { is_done = false }, true)

-- `closeConnection`
unfoldable pub close_conn : Option ℕ → DeepgramStt → DeepgramStt × List Effect
close_conn none s = (record s { is_connected = false }, [])
close_conn (some c) s =
    (record s { conn = none; is_connected = false }, tries c close_stream ∷ closes c ∷ [])

unfoldable pub close_connection : DeepgramStt → DeepgramStt × List Effect
unfolding close_conn
close_connection s = close_conn s.conn s

-- `Cleanup`
unfoldable pub cleanup : DeepgramStt → DeepgramStt × List Effect
unfolding close_connection
cleanup s =
    let (closed, out) = close_connection s in
    (record closed { has_out = false; has_interim = false; has_errors = false }, out)

-- a message to the connection that there is, where its write succeeds
abbrev pub write_on : Bool → Bool → Frame → Option ℕ → List Effect
write_on connected written f none = []
write_on connected written f (some c) = if connected && written then writes c f ∷ [] else []

-- `Reset` and `Flush`, whose write may fail unnoticed
unfoldable pub finalizes : Bool → DeepgramStt → List Effect
finalizes written s = write_on s.is_connected written finalize s.conn

-- a tick of `keepAlive`
unfoldable pub keep_alive_tick : Bool → DeepgramStt → List Effect
keep_alive_tick written s = write_on s.is_connected written keep_alive s.conn

-- `handleConnectionError`, a goroutine of its own
unfoldable pub handle_connection_error : DeepgramStt → DeepgramStt
handle_connection_error s = record s { is_connected = false }

-- The parts of `SendTranscriptionAudio`: its test, and its write, with the errors that it returns.
-- `panics` is a write to a connection that is nil.
pub data SendResult : Type 0 where
  not_connected not_converted failed sent panics : SendResult

unfoldable pub may_send : DeepgramStt → Bool
may_send s = s.is_connected && is_some s.conn

-- The write, with its outcome. A failure starts the goroutine of `handleConnectionError`.
unfoldable pub write_audio :
    Bool → Bytes → Option ℕ → DeepgramStt → DeepgramStt × List Effect × SendResult
write_audio written audio none s = (s, [], panics)
write_audio true audio (some c) s = (s, writes c (audio_of audio) ∷ [], sent)
write_audio false audio (some c) s = (s, spawns_error_handler ∷ [], failed)

-- The conversion, whose error is `none`, and the write.
unfoldable pub send_converted :
    Bool → Option Bytes → DeepgramStt → DeepgramStt × List Effect × SendResult
unfolding write_audio
send_converted written none s = (s, [], not_converted)
send_converted written (some audio) s = write_audio written audio s.conn s

-- the samples of a chunk that is converted
abbrev pub samples_of : Result AudioChunk → Option Bytes
samples_of (ok a) = some a.samples
samples_of (err e) = none

-- `SendTranscriptionAudio` where nothing comes between its test and its write
unfoldable pub send_transcription_audio :
    Codecs → Bool → AudioChunk → DeepgramStt → DeepgramStt × List Effect × SendResult
unfolding may_send send_converted convert_audio_chunk
send_transcription_audio k written chunk s =
    if may_send s
    then send_converted written (samples_of (convert_audio_chunk k chunk pcm 1 16000)) s
    else (s, [], not_connected)

-- what `processResults` reads of a message
pub record Results : Type 0 where
  pub transcripts : List Text
  pub is_final : Bool
  pub speech_final : Bool
  pub from_finalize : Bool

-- `processResults` on the first transcript, with whether the channels have room
unfoldable pub send_transcript : Bool → Bool → Text → Results → DeepgramStt → List Effect
send_transcript room interim_room t r s =
    if r.is_final || r.speech_final || r.from_finalize
    then if not s.is_done && s.has_out && room then final_text t ∷ [] else []
    else if not s.is_done && s.has_interim && interim_room
    then interim_text t ∷ []
    else []

unfoldable pub process_results : Bool → Bool → List Text → Results → DeepgramStt → List Effect
unfolding send_transcript
process_results room interim_room [] r s = []
process_results room interim_room ([] ∷ ts) r s = []
process_results room interim_room ((x ∷ xs) ∷ ts) r s =
    send_transcript room interim_room (x ∷ xs) r s

-- A message: results where they decode, another known one, or one that gives an error, which is
-- logged.
pub data SttMessage : Type 0 where
  results : Results → SttMessage
  known erroneous : SttMessage

-- `handleMessage`
unfoldable pub handle_message : Bool → Bool → SttMessage → DeepgramStt → List Effect
unfolding process_results
handle_message room interim_room (results r) s = process_results room interim_room r.transcripts r s
handle_message room interim_room known s = []
handle_message room interim_room erroneous s = []
