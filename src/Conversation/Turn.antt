-- ===== src/Conversation/Turn.antt =====
-- A turn of the assistant from its start to its end.
use interact_kit_sdk.Prelude.{ℕ, ◌≡◌, refl, ap, ◌∙◌, true, false, List, [], ◌∷◌, ◌++◌, arith}
use interact_kit_sdk.Text.{Text, fields, trim_space}
use interact_kit_sdk.Text.Fields.{fields-trim_space}
use interact_kit_sdk.Text.Laws.{trim_space_idem}
use interact_kit_sdk.Events.{vad_interruption_confirmed, llm_response_started, Packet}
use interact_kit_sdk.Conversation.Assistant.{
  commit_assistant_message, on_interruption, assistant_dispatch, assistant_handle_event,
  AssistantAggregator, assistant_run, commit_text,
}
use interact_kit_sdk.Conversation.Spoken.{
  assistant_run-append, Listening, AllSpoken, spoken_words, run-Heard,
}

-- the state after the start of a response
abbrev pub started : AssistantAggregator → AssistantAggregator
started p = record p { spoken_buffer = []; interrupted = false; has_active_turn = true }

pub started-Listening : (p : AssistantAggregator) → Listening (started p)
started-Listening p = ground arith

pub starts-turn :
    (k : ℕ) (q : Packet) (p : AssistantAggregator)
    → q.event ≡ llm_response_started
    → (assistant_handle_event k q p).0 ≡ started p
unfolding assistant_handle_event assistant_dispatch
starts-turn k q p e = ground arith

interruption-context :
    (k : ℕ) (q : Packet) (p : AssistantAggregator)
    → Listening p
    → q.event ≡ vad_interruption_confirmed
    → (assistant_handle_event k q p).0.context ≡ commit_text (trim_space p.spoken_buffer) p.context
unfolding assistant_handle_event assistant_dispatch on_interruption commit_assistant_message
interruption-context k q p l e = ground arith

-- Where a response starts, chunks of it are spoken, and an interruption is confirmed, the text that
-- is committed as the assistant's message (none, if it is empty) is trimmed, and its words are
-- exactly the words of the chunks that were spoken.
pub interrupted_turn_words :
    (k j : ℕ) (start stop : Packet) (qs : List (ℕ × Packet)) (p : AssistantAggregator)
    → start.event ≡ llm_response_started
    → AllSpoken qs
    → stop.event ≡ vad_interruption_confirmed
    → (t : Text) × ((assistant_run ((k, start) ∷ (qs ++ (j, stop) ∷ [])) p).context
        ≡ commit_text t p.context)
      × (trim_space t ≡ t)
      × (fields t ≡ spoken_words qs)
unfolding assistant_run
interrupted_turn_words k j start stop qs p e s i =
    let h = run-Heard qs (started p) (started-Listening p) s in
    let p1 = assistant_run qs (started p) in
    (
      trim_space p1.spoken_buffer,
      ap (λ x. (assistant_run (qs ++ (j, stop) ∷ []) x).context) (starts-turn k start p e)
          ∙ ap (λ x. x.context) (assistant_run-append qs ((j, stop) ∷ []) (started p))
          ∙ interruption-context j stop p1 h.listening i
          ∙ ap (commit_text (trim_space p1.spoken_buffer)) h.same_context,
      trim_space_idem p1.spoken_buffer,
      fields-trim_space p1.spoken_buffer ∙ h.heard ∙ unfold fields in refl,
    )
