-- ===== src/Tests/SimulationTests.antt =====
-- Runs of the simulation of speech: handlers/tts/tts_handler.go.
use interact_kit_sdk.Conversation.Pipeline.{interruption_commits_nothing, top_events}
use interact_kit_sdk.Speech.Speaking.{speaking_state}
use interact_kit_sdk.Conversation.Assistant.{assistant_run, AssistantAggregator}
use interact_kit_sdk.Speech.Drain.{sim_run-drains, utterance, tick_each}
use interact_kit_sdk.Speech.Delivery.{sim_run-tracked, track_packets}
use interact_kit_sdk.Prelude.{
  ℕ, ◌≡◌, refl, inl, inr, true, false, not, none, some, List, [], ◌∷◌, ◌++◌,
}
use interact_kit_sdk.Text.{is_space, fields_from, fields, is_empty, Text, codes}
use interact_kit_sdk.Events.{
  tts_speaking_started, new_event_packet, vad_interruption_confirmed, next_service, Event,
  llm_response_started, Packet,
}
use interact_kit_sdk.Speech.Simulation.{
  reset_simulation, end_speaking, send_next_word, takes_reset, tick, ticks, offers_reset, add_words,
  takes_text, take_text, sim_step, offers, SimInput, sim_run, new_simulation,
}
use interact_kit_sdk.Speech.Speaker.{Speaker, speaker_run, concrete, sim_run-refines}

abbrev greeting : Text
greeting = codes "how are you"

abbrev silent : Speaker
silent = record { texts = []; signal = false; to_say = [] }

-- a text is offered and begun, a second word is said, and the rest is left
abbrev begins : List SimInput
begins = offers greeting ∷ takes_text ∷ ticks ∷ []

abbrev cut : List SimInput
cut = offers greeting ∷ takes_text ∷ offers_reset ∷ ticks ∷ takes_reset ∷ []

refines_example :
    sim_run cut (concrete silent)
    ≡ (concrete (speaker_run cut silent).0, (speaker_run cut silent).1)
refines_example = sim_run-refines cut silent (tt, (tt, (tt, (tt, (tt, tt)))))

tracked_example :
    (track_packets (sim_run cut (concrete silent)).1 false
      ≡ some (sim_run cut (concrete silent)).0.is_speaking)
    × ((sim_run cut (concrete silent)).0.is_speaking
        ≡ not (is_empty (sim_run cut (concrete silent)).0.words))
tracked_example = sim_run-tracked cut silent (tt, (tt, (tt, (tt, (tt, tt)))))

drains_example :
    let s = (sim_run begins (concrete silent)).0 in
    sim_run (tick_each s.words) s ≡ (speaking_state s.queued [] s.reset_waits, utterance s.words)
drains_example = sim_run-drains begins silent (tt, (tt, (tt, tt)))

left_over : (sim_run begins new_simulation).0.words ≡ codes "you" ∷ []
unfolding sim_run sim_step take_text add_words tick send_next_word end_speaking reset_simulation
    fields fields_from is_space
left_over = refl

abbrev brings : Event → Packet
brings e = record { event = e; destination = next_service; relayer = "LLMHandler" }

abbrev aggregator : AssistantAggregator
aggregator = record {
  context = none;
  spoken_buffer = [];
  interrupted = true;
  has_active_turn = false;
}

-- the response of which the caller hears two words, as the aggregator before the simulation sees it
abbrev arriving : List (ℕ × Packet)
arriving = (1, brings llm_response_started) ∷ (2, brings tts_speaking_started) ∷ []

commits_nothing_example :
    let stop = brings vad_interruption_confirmed in
    (assistant_run (arriving ++ (2, stop) ∷ []) aggregator).context
    ≡ (assistant_run arriving aggregator).context
unfolding sim_run sim_step take_text add_words tick send_next_word end_speaking reset_simulation
    fields fields_from is_space top_events new_event_packet
commits_nothing_example =
    interruption_commits_nothing begins new_simulation arriving 2
      (brings vad_interruption_confirmed) aggregator refl (inl refl, (inr (inl refl), tt)) refl
