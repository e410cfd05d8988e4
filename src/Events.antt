-- ===== src/Events.antt =====
-- The events that flow through the pipeline (events/*/output.go, core/base_events.go), the packets
-- that carry them (core/event_packet.go) and the conversation that some of them hold
-- (core/llm.go). The random `Uid` of a packet identifies it in logs only, and is left out.
use interact_kit_sdk.Audio.Bytes.{Bytes}
use interact_kit_sdk.Prelude.{ℕ, String, Bool, true, false, Option, none, some, List}
use interact_kit_sdk.Text.{Text}
use interact_kit_sdk.Audio.Convert.{AudioChunk}

pub data Role : Type 0 where
  user assistant system tool : Role

unfoldable pub is_system : Role → Bool
is_system system = true
is_system _ = false

pub record LlmMessage : Type 0 where
  pub role : Role
  pub message : Text

pub data ParameterType : Type 0 where
  string number boolean object : ParameterType

pub record Parameter : Type 0 where
  pub name : Text
  pub description : Text
  pub required : Bool
  pub example : Text
  pub type : ParameterType

pub record LlmTool : Type 0 where
  pub name : String
  pub tool_id : String
  pub description : Text
  pub parameters : List Parameter
  pub server_url : String

pub record LlmContext : Type 0 where
  pub messages : List LlmMessage
  pub tools : List LlmTool

-- the parameters of a tool call, each printed by `%v`
abbrev pub Params : Type 0
Params = List (String × Text)

pub data VideoFormat : Type 0 where
  mp4 avi mkv : VideoFormat

pub record VideoChunk : Type 0 where
  pub frames : Bytes
  pub frame_rate : ℕ
  pub resolution : Text
  pub video_format : VideoFormat
  pub video_timestamp : ℕ

pub data Event : Type 0 where
  tts_speaking_started tts_speaking_ended : Event
  tts_output : AudioChunk → Event
  tts_spoken_text_chunk tts_speak : Text → Event
  llm_generate_response : LlmContext → Event
  llm_response_started : Event
  llm_response_chunk : Text → Bool → Event
  llm_response_completed : Text → Event
  llm_tool_invocation_requested : String → Params → Event
  llm_tool_invocation_result : String → Text → Event
  llm_prepare_interim_filler : Text → Option LlmContext → Event
  llm_variable_confirm_request : Text → Event
  vad_user_speaking vad_silence vad_user_speech_started vad_user_speech_ended : Event
  vad_interruption_suspected vad_interruption_confirmed : Event
  stt_final_output stt_interim_output : Text → Event
  transport_audio_input : AudioChunk → Event
  transport_video_input : VideoChunk → Event
  transport_text_input : Text → Event
  task_variables : String → Bool → List (String × Text) → Event
  critical_error end_call : Text → Event

-- `EventRelayDestination`; `unset` is any other value of the integer type
pub data Destination : Type 0 where
  next_service top_service unset : Destination

pub record Packet : Type 0 where
  pub event : Event
  pub destination : Destination
  pub relayer : String

unfoldable pub new_event_packet : Event → Destination → String → Packet
new_event_packet e d r = record { event = e; destination = d; relayer = r }

-- the chunk that a packet says was spoken
abbrev pub spoken_text : Event → Option Text
spoken_text (tts_spoken_text_chunk t) = some t
spoken_text _ = none
