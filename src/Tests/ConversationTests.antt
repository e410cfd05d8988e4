-- ===== src/Tests/ConversationTests.antt =====
-- Runs of the context aggregators: handlers/context/context_handler.go.
use interact_kit_sdk.Prelude.{
  ℕ, ◌+◌, ◌≤◌, String, ◌≡◌, refl, inl, true, false, none, some, List, [], ◌∷◌, length,
}
use interact_kit_sdk.Text.{is_space, trim_left, trim_right, codes, trim_space}
use interact_kit_sdk.Events.{
  new_event_packet, assistant, vad_interruption_suspected, vad_interruption_confirmed,
  llm_response_started, tts_spoken_text_chunk, stt_final_output, Event, Packet, LlmContext,
  next_service,
}
use interact_kit_sdk.Conversation.User.{
  regenerates, sends, timer_fires, user_packet, UserAggregator, UserInput, user_step, user_run,
}
use interact_kit_sdk.Conversation.Regeneration.{
  requests, TimerInv, generations, undrained, signals, regenerations_accounted,
}
use interact_kit_sdk.Conversation.Assistant.{
  begins_with_word, ends_in_word, AssistantAggregator, assistant_run,
}

abbrev brings : Event → Packet
brings e = record { event = e; destination = next_service; relayer = "STTHandler" }

abbrev empty : LlmContext
empty = record { messages = []; tools = [] }

abbrev idle : UserAggregator
idle = record {
  context = some empty;
  false_positive_timer = none;
  armed = false;
  sending = [];
  has_channel = true;
  regenerate = none;
}

idle-TimerInv : TimerInv idle
idle-TimerInv = record { armed_has_timer = inl refl }

-- a suspicion whose timer expires and whose callback sends just before the transcript comes
abbrev suspected : List UserInput
suspected = user_packet (brings vad_interruption_suspected) ∷ timer_fires ∷ sends 0 ∷ []

abbrev hello : Packet
hello = brings (stt_final_output (codes "hello"))

abbrev later : List UserInput
later =
    sends 0 ∷ regenerates ∷ user_packet (brings (stt_final_output (codes "bye"))) ∷ timer_fires ∷ []

accounted_example :
    let p1 = (user_run suspected idle).0 in
    let p2 = (user_step (user_packet hello) p1).0 in
    let sent = generations (user_run later p2).1 in
    (requests later ≤ sent) × (sent ≤ requests later + (length p1.sending + undrained p1))
accounted_example =
    regenerations_accounted suspected later hello idle idle-TimerInv refl
      (tt, (tt, ((λ e. cc), (tt, tt))))

-- nothing is left of the suspicion; but a callback that has started and not sent is not stopped
nothing_left : let p1 = (user_run suspected idle).0 in length p1.sending + undrained p1 ≡ 0
unfolding user_run user_step undrained signals
nothing_left = refl

abbrev expired : List UserInput
expired = user_packet (brings vad_interruption_suspected) ∷ timer_fires ∷ []

stale_regeneration :
    let p1 = (user_run expired idle).0 in
    let p2 = (user_step (user_packet hello) p1).0 in
    (generations (user_run later p2).1 ≡ 2) × (requests later ≡ 1)
unfolding user_run user_step generations requests new_event_packet
stale_regeneration = (refl, refl)

abbrev suspicious : UserAggregator
suspicious = record idle { false_positive_timer = some empty; armed = true }

abbrev quiet : AssistantAggregator
quiet = record {
  context = some empty;
  spoken_buffer = [];
  has_active_turn = false;
  interrupted = false;
}

abbrev says : String → ℕ × Packet
says s = (0, brings (tts_spoken_text_chunk (codes s)))

commits_what_was_said :
    (assistant_run
      ((0, brings llm_response_started)
        ∷ says "Good"
        ∷ says "morning "
        ∷ (0, brings vad_interruption_confirmed)
        ∷ [])
      quiet).context
    ≡ some (record empty {
      messages = record { role = assistant; message = codes "Good morning" } ∷ [];
    })
unfolding assistant_run trim_space trim_right trim_left ends_in_word begins_with_word is_space
commits_what_was_said = refl
