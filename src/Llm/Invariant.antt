-- ===== src/Llm/Invariant.antt =====
-- The states of the filler.
use interact_kit_sdk.Events.{
  vad_interruption_confirmed, vad_interruption_suspected, llm_prepare_interim_filler,
  llm_variable_confirm_request, Packet, Event,
}
use interact_kit_sdk.Prelude.{
  ℕ, String, ◌≡◌, Bool, true, not, ◌||◌, Option, List, [], ◌∷◌, arith, ◌==◌,
}
use interact_kit_sdk.Text.{is_empty, Text}
use interact_kit_sdk.Llm.Filler.{
  request_filler, is_active, reset_utterance, store_result, hear_utterance, request_failed,
  on_interim, new_filler_state, poll_filler, clear_after_response, FillerState,
}
use interact_kit_sdk.Llm.Handler.{
  LlmHandler, handle_interim_transcript, llm_handle_event, discard_fillers, new_llm_handler,
  llm_dispatch,
}
use interact_kit_sdk.Llm.Answers.{Json}
use interact_kit_sdk.Llm.Loop.{
  takes_end, takes_start, answers_bridge, answers_filler, polls, takes_tool_call, takes_message,
  handles, on_poll, on_end, on_start, on_tool_call, on_message, LlmInput, llm_run, llm_step,
  llm_step_alive, on_filler_answer,
}

-- While nobody is listened to, and where fillers are off, no filler is wanted, ready or consumed;
-- a filler is ready exactly while its text is kept; an answer is waited for, and a filler ready, only where
-- one was requested, and never both; and the text of a consumed filler is kept only where one was consumed.
pub record FillerInv (f : FillerState) : Type 0 where
  pub idle_off :
      (f.listening || not (f.filler_consumed || f.filler_ready || f.filler_requested)) ≡ true
  pub off_idle : (f.enabled || not f.listening) ≡ true
  pub ready_iff : f.filler_ready ≡ not (is_empty f.pending_filler)
  pub waits_requested : (f.filler_requested || f.active_request_token == 0) ≡ true
  pub waits_unready : (not f.filler_ready || f.active_request_token == 0) ≡ true
  pub ready_requested : (f.filler_requested || not f.filler_ready) ≡ true
  pub text_used : (f.filler_consumed || is_empty f.consumed_filler) ≡ true

new-FillerInv : (b : Bool) → FillerInv (new_filler_state b)
unfolding new_filler_state
new-FillerInv b = ground arith

on_interim-FillerInv :
    (text : Text) (f : FillerState) → FillerInv f → FillerInv (on_interim text f).0
unfolding on_interim hear_utterance reset_utterance request_filler
on_interim-FillerInv text f v = ground arith

clear-FillerInv : (f : FillerState) → FillerInv f → FillerInv (clear_after_response f)
unfolding clear_after_response
clear-FillerInv f v = ground arith

poll-FillerInv : (late : Bool) (f : FillerState) → FillerInv f → FillerInv (poll_filler late f).0
unfolding poll_filler
poll-FillerInv late f v = ground arith

on_filler_answer-FillerInv :
    (t u : ℕ) (answer : Option (List (String × Json))) (f : FillerState)
    → FillerInv f
    → FillerInv (on_filler_answer t u answer f)
unfolding on_filler_answer request_failed store_result is_active
on_filler_answer-FillerInv t u answer f v = ground arith

dispatch-FillerInv :
    (e : Event) (q : Packet) (h : LlmHandler)
    → FillerInv h.filler
    → FillerInv (llm_dispatch e q h).0.filler
unfolding llm_dispatch discard_fillers handle_interim_transcript
dispatch-FillerInv (llm_variable_confirm_request t) q h v = clear-FillerInv h.filler v
dispatch-FillerInv vad_interruption_suspected q h v = clear-FillerInv h.filler v
dispatch-FillerInv vad_interruption_confirmed q h v = clear-FillerInv h.filler v
dispatch-FillerInv (llm_prepare_interim_filler t c) q h v =
    ground (arith, on_interim-FillerInv t h.filler v)
dispatch-FillerInv _ q h v = v

alive-FillerInv :
    (i : LlmInput) (h : LlmHandler) → FillerInv h.filler → FillerInv (llm_step_alive i h).0.filler
unfolding llm_step_alive llm_handle_event on_message on_tool_call on_start on_end on_poll
alive-FillerInv (handles q) h v = dispatch-FillerInv q.event q h v
alive-FillerInv (takes_message m) h v = ground arith
alive-FillerInv (takes_tool_call t ps) h v = ground arith
alive-FillerInv takes_start h v = ground arith
alive-FillerInv takes_end h v = ground (arith, clear-FillerInv h.filler v)
alive-FillerInv (polls i late) h v = ground (arith, poll-FillerInv late h.filler v)
alive-FillerInv (answers_filler t u a) h v = on_filler_answer-FillerInv t u a h.filler v
alive-FillerInv (answers_bridge t a) h v = v

pub step-FillerInv :
    (i : LlmInput) (h : LlmHandler) → FillerInv h.filler → FillerInv (llm_step i h).0.filler
unfolding llm_step
step-FillerInv i h v = ground (arith, alive-FillerInv i h v)

pub run-FillerInv :
    (is : List LlmInput) (h : LlmHandler) → FillerInv h.filler → FillerInv (llm_run is h).0.filler
unfolding llm_run
run-FillerInv [] h v = v
run-FillerInv (i ∷ is) h v = run-FillerInv is (llm_step i h).0 (step-FillerInv i h v)

-- Over any inputs from a new handler on: where nobody is listened to, and where fillers are off, no
-- filler is wanted, ready or consumed; a filler is ready exactly while its text is kept; an answer
-- is waited for, and a filler ready, only where one was requested, and never both; and the text of a
-- consumed filler is kept only where one was consumed.
pub llm_run-FillerInv :
    (fillers dedicated : Bool) (is : List LlmInput)
    → FillerInv (llm_run is (new_llm_handler fillers dedicated)).0.filler
unfolding new_llm_handler
llm_run-FillerInv fillers dedicated is =
    run-FillerInv is (new_llm_handler fillers dedicated) (new-FillerInv fillers)
