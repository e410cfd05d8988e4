-- ===== src/Tests/VadTests.antt =====
-- Runs of the voice activity handler: handlers/vad/vad_handler.go.
use interact_kit_sdk.Prelude.{ℕ, ◌*◌, ◌≡◌, refl, true, false, none, some, List, [], ◌∷◌, map, leb}
use interact_kit_sdk.Audio.Convert.{AudioChunk, pcm}
use interact_kit_sdk.Events.{
  vad_user_speech_ended, vad_user_speaking, vad_interruption_suspected, vad_user_speech_started,
  critical_error, new_event_packet, vad_silence, tts_speaking_started, transport_audio_input, Event,
  Packet, next_service,
}
use interact_kit_sdk.Vad.{
  fails, sends, vad_dispatch, VadHandler, Output, Confidences, VadConfig, Arrival, new_vad_handler,
  vad_run, vad_handle_event,
}
use interact_kit_sdk.Vad.Runs.{track, is_verdict, vad_run-track}

-- per cent in place of floats
abbrev percent : Confidences
percent = record { Float = ℕ; at_least = λ a b. leb b a }

abbrev config : VadConfig percent
config = record { min_confidence = 50; allow_interruptions = true; patience_increase = 200000000 }

abbrev silent_chunk : AudioChunk
silent_chunk = record {
  samples = 0 ∷ 0 ∷ [];
  sample_rate = 8000;
  channels = 1;
  format = pcm;
  timestamp = 0;
}

abbrev packet_of : Event → Packet
packet_of e = record { event = e; destination = next_service; relayer = "TransportHandler" }

abbrev hears : ℕ → ℕ → Arrival percent
hears ms c = record {
  now = ms * 1000000;
  packet = packet_of (transport_audio_input silent_chunk);
  answer = some c;
}

abbrev bot_starts : Arrival percent
bot_starts = record { now = 0; packet = packet_of tts_speaking_started; answer = none }

-- the user speaks over the bot, pauses for less than the grace period, and then stops
abbrev call : List (Arrival percent)
call = bot_starts ∷ hears 100 90 ∷ hears 500 10 ∷ hears 700 10 ∷ []

abbrev after_call : VadHandler percent
after_call = (vad_run percent config call (new_vad_handler percent)).0

abbrev event_of : Output percent → Event
event_of (sends p) = p.event
event_of fails = critical_error []

call_events :
    map event_of (vad_run percent config call (new_vad_handler percent)).1
    ≡ tts_speaking_started
      ∷ vad_user_speech_started
      ∷ vad_interruption_suspected
      ∷ vad_user_speaking
      ∷ transport_audio_input silent_chunk
      ∷ vad_user_speaking
      ∷ transport_audio_input silent_chunk
      ∷ vad_user_speech_ended
      ∷ vad_silence
      ∷ transport_audio_input silent_chunk
      ∷ []
unfolding vad_run vad_handle_event vad_dispatch new_event_packet
call_events = refl

shut : after_call.is_speech_active ≡ false
unfolding vad_run vad_handle_event vad_dispatch
shut = refl

vad_run-track_example :
    track percent (vad_run percent config call (new_vad_handler percent)).1 false
    ≡ some after_call.is_speech_active
unfolding is_verdict
vad_run-track_example =
    vad_run-track percent config call (new_vad_handler percent) (refl, (refl, (refl, (refl, tt))))
