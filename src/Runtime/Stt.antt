-- ===== src/Runtime/Stt.antt =====
-- `STTHandler` of handlers/stt/stt_handler.go: what it asks of the service, and what it sends.
use interact_kit_sdk.Audio.Convert.{AudioChunk}
use interact_kit_sdk.Prelude.{Option, none, some, List, [], ◌∷◌, ◌++◌}
use interact_kit_sdk.Text.{Text}
use interact_kit_sdk.Events.{
  vad_user_speech_ended, stt_interim_output, stt_final_output, transport_audio_input, Packet, Event,
  next_service, new_event_packet,
}

pub data SttEffect : Type 0 where
  sends_audio : AudioChunk → SttEffect
  flushes : SttEffect
  fails : Text → SttEffect
  relays : Packet → SttEffect

-- The cases of `HandleEvent`; a flush may answer with an error, which is fatal.
unfoldable pub stt_dispatch : Event → Option Text → List SttEffect
stt_dispatch (transport_audio_input chunk) error = sends_audio chunk ∷ []
stt_dispatch vad_user_speech_ended error =
    flushes ∷ elim error [ none ↦ [] | some e ↦ fails e ∷ [] ]
stt_dispatch _ error = []

unfoldable pub stt_handle_event : Packet → Option Text → List SttEffect
unfolding stt_dispatch
stt_handle_event q error = stt_dispatch q.event error ++ relays q ∷ []

-- a packet, or a final or an interim result of the service
pub data SttInput : Type 0 where
  stt_packet : Packet → Option Text → SttInput
  final_result interim_result : Text → SttInput

unfoldable pub stt_step : SttInput → List SttEffect
unfolding stt_handle_event new_event_packet
stt_step (stt_packet q error) = stt_handle_event q error
stt_step (final_result t) =
    relays (new_event_packet (stt_final_output t) next_service "STTHandler") ∷ []
stt_step (interim_result t) =
    relays (new_event_packet (stt_interim_output t) next_service "STTHandler") ∷ []
