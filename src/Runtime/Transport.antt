-- ===== src/Runtime/Transport.antt =====
-- The handlers of handlers/transport/transport_handler.go at both ends of the pipeline.
use interact_kit_sdk.Audio.Convert.{AudioChunk}
use interact_kit_sdk.Prelude.{
  Bool, true, false, Option, none, some, List, [], ◌∷◌, ◌++◌, if◌then◌else◌,
}
use interact_kit_sdk.Text.{Text, is_empty}
use interact_kit_sdk.Events.{
  Event, transport_video_input, VideoChunk, transport_text_input, transport_audio_input, Packet,
  next_service, new_event_packet,
}

-- `MediaChunk` of core/media.go: `none` is a chunk without data.
pub record MediaChunk : Type 0 where
  pub audio : Option AudioChunk
  pub video : Option VideoChunk
  pub text : Text

abbrev input_packet : Event → Packet
input_packet e = new_event_packet e next_service "TransportInputHandler"

unfoldable pub process_audio : MediaChunk → List Packet
process_audio c =
    elim c.audio [ none ↦ [] | some chunk ↦ input_packet (transport_audio_input chunk) ∷ [] ]
    ++ (elim c.video [ none ↦ [] | some chunk ↦ input_packet (transport_video_input chunk) ∷ [] ]
        ++ (if is_empty c.text then [] else input_packet (transport_text_input c.text) ∷ []))

-- `connected` of the wrapper, which both handlers share
pub record TransportHandlerWrapper : Type 0 where
  pub connected : Bool

-- The part of `Initialize` that connects, with the answer of `Connect`: has it gone well?
unfoldable pub connect_once : Bool → TransportHandlerWrapper → TransportHandlerWrapper × Bool
connect_once connect_ok w =
    if w.connected
    then (w, true)
    else if connect_ok
    then (record w { connected = true }, true)
    else (w, false)

-- `HandleEvent` of the output handler: what is relayed after the service has (not) sent the event
unfoldable pub output_handle_event : Packet → Bool → List Packet
output_handle_event q send_ok = if send_ok then q ∷ [] else []

-- and its `Cleanup`
unfoldable pub output_cleanup : TransportHandlerWrapper → TransportHandlerWrapper
output_cleanup w = if w.connected then record w { connected = false } else w
