-- ===== src/Llm/Tokens.antt =====
-- Which answers for a filler are used: each request has a token, and only the last one counts.
use interact_kit_sdk.Events.{
  llm_generate_response, Event, vad_interruption_confirmed, vad_interruption_suspected,
  llm_prepare_interim_filler, llm_variable_confirm_request, Packet, Params, LlmContext,
}
use interact_kit_sdk.Text.{Text}
use interact_kit_sdk.Prelude.{
  ℕ, ◌+◌, ◌^◌, ◌≤◌, ◌<◌, String, ◌≡◌, refl, Bool, true, ◌&&◌, ◌||◌, Option, none, some, List, [],
  ◌∷◌, arith, ◌==◌,
}
use interact_kit_sdk.Llm.Filler.{
  FillerRequest, request_filler, reset_utterance, store_result, request_failed, hear_utterance,
  clear_after_response, on_interim, poll_filler, FillerState,
}
use interact_kit_sdk.Llm.Handler.{
  sends_next, generate_confirm_bridge, asks_filler, llm_dispatch, LlmEffect, LlmHandler,
  discard_fillers, llm_handle_event, handle_interim_transcript,
}
use interact_kit_sdk.Llm.Answers.{Json}
use interact_kit_sdk.Llm.Loop.{
  start_completion, on_bridge_answer, takes_end, takes_start, answers_bridge, answers_filler, polls,
  takes_tool_call, takes_message, handles, LlmInput, on_tool_call, on_poll, llm_step,
  llm_step_alive, on_start, on_end, on_message, on_filler_answer,
}

-- How a step changes the tokens while the counter does not wrap round: the active one is kept,
-- dropped or drawn anew.
pub record Draws (f f' : FillerState) : Type 0 where
  pub same_enabled : f'.enabled ≡ f.enabled
  pub grows : f.next_request_token ≤ f'.next_request_token
  pub by_one : f'.next_request_token ≤ f.next_request_token + 1
  pub kept_or_new :
      (f'.active_request_token == f.active_request_token
        || f'.active_request_token == 0
        || f'.active_request_token == f.next_request_token + 1
          && f'.next_request_token == f.next_request_token + 1)
      ≡ true

pub Draws-refl : (f : FillerState) → Draws f f
Draws-refl f = record {
  same_enabled = refl;
  grows = omega arith;
  by_one = omega arith;
  kept_or_new = ground arith;
}

on_interim-Draws :
    (text : Text) (f : FillerState)
    → f.next_request_token + 1 < 2 ^ 64
    → Draws f (on_interim text f).0
unfolding on_interim hear_utterance reset_utterance request_filler
on_interim-Draws text f small = ground arith

clear-Draws : (f : FillerState) → Draws f (clear_after_response f)
unfolding clear_after_response
clear-Draws f = ground arith

poll-Draws : (late : Bool) (f : FillerState) → Draws f (poll_filler late f).0
unfolding poll_filler
poll-Draws late f = ground arith

on_filler_answer-Draws :
    (t u : ℕ) (answer : Option (List (String × Json))) (f : FillerState)
    → Draws f (on_filler_answer t u answer f)
unfolding on_filler_answer request_failed store_result
on_filler_answer-Draws t u answer f = ground arith

handle_interim-Draws :
    (text : Text) (c : Option LlmContext) (h : LlmHandler)
    → h.filler.next_request_token + 1 < 2 ^ 64
    → Draws h.filler (handle_interim_transcript text c h).0.filler
unfolding handle_interim_transcript
handle_interim-Draws text c h small = ground (arith, on_interim-Draws text h.filler small)

on_end-Draws : (h : LlmHandler) → Draws h.filler (on_end h).0.filler
unfolding on_end
on_end-Draws h = ground (arith, clear-Draws h.filler, Draws-refl h.filler)

on_poll-Draws : (i : ℕ) (late : Bool) (h : LlmHandler) → Draws h.filler (on_poll i late h).0.filler
unfolding on_poll
on_poll-Draws i late h = ground (arith, poll-Draws late h.filler, Draws-refl h.filler)

llm_dispatch-Draws :
    (e : Event) (q : Packet) (h : LlmHandler)
    → h.filler.next_request_token + 1 < 2 ^ 64
    → Draws h.filler (llm_dispatch e q h).0.filler
unfolding llm_dispatch discard_fillers
llm_dispatch-Draws (llm_variable_confirm_request t) q h small = clear-Draws h.filler
llm_dispatch-Draws vad_interruption_suspected q h small = clear-Draws h.filler
llm_dispatch-Draws vad_interruption_confirmed q h small = clear-Draws h.filler
llm_dispatch-Draws (llm_prepare_interim_filler t c) q h small = handle_interim-Draws t c h small
llm_dispatch-Draws _ q h small = Draws-refl h.filler

on_message-filler : (m : Text) (h : LlmHandler) → (on_message m h).0.filler ≡ h.filler
unfolding on_message
on_message-filler m h = ground arith

on_tool_call-filler :
    (t : String) (ps : Params) (h : LlmHandler) → (on_tool_call t ps h).0.filler ≡ h.filler
unfolding on_tool_call
on_tool_call-filler t ps h = ground arith

on_start-filler : (h : LlmHandler) → (on_start h).filler ≡ h.filler
unfolding on_start
on_start-filler h = ground arith

llm_step_alive-Draws :
    (i : LlmInput) (h : LlmHandler)
    → h.filler.next_request_token + 1 < 2 ^ 64
    → Draws h.filler (llm_step_alive i h).0.filler
unfolding llm_step_alive llm_handle_event
llm_step_alive-Draws (handles q) h small = llm_dispatch-Draws q.event q h small
llm_step_alive-Draws (takes_message m) h small = rw (on_message-filler m h) (Draws-refl h.filler)
llm_step_alive-Draws (takes_tool_call t ps) h small =
    rw (on_tool_call-filler t ps h) (Draws-refl h.filler)
llm_step_alive-Draws takes_start h small = rw (on_start-filler h) (Draws-refl h.filler)
llm_step_alive-Draws takes_end h small = on_end-Draws h
llm_step_alive-Draws (polls i late) h small = on_poll-Draws i late h
llm_step_alive-Draws (answers_filler t u a) h small = on_filler_answer-Draws t u a h.filler
llm_step_alive-Draws (answers_bridge t a) h small = Draws-refl h.filler

pub llm_step-Draws :
    (i : LlmInput) (h : LlmHandler)
    → h.filler.next_request_token + 1 < 2 ^ 64
    → Draws h.filler (llm_step i h).0.filler
unfolding llm_step
llm_step-Draws i h small = ground (arith, Draws-refl h.filler, llm_step_alive-Draws i h small)

-- the request for a filler among what the handler does
unfoldable pub request_of : List LlmEffect → Option FillerRequest
request_of [] = none
request_of (asks_filler d c r ∷ out) = some r
request_of (_ ∷ out) = request_of out

-- a request draws the next token, which is then waited for
pub record Requests (r : FillerRequest) (f f' : FillerState) : Type 0 where
  pub enabled : f.enabled ≡ true
  pub next : r.token ≡ f.next_request_token + 1
  pub drawn : f'.next_request_token ≡ r.token
  pub active : f'.active_request_token ≡ r.token

on_interim-Requests :
    (text : Text) (f : FillerState) (r : FillerRequest)
    → f.next_request_token + 1 < 2 ^ 64
    → (on_interim text f).1 ≡ some r
    → Requests r f (on_interim text f).0
unfolding on_interim hear_utterance reset_utterance request_filler
on_interim-Requests text f r small asked = ground arith

handle_interim-Requests :
    (text : Text) (c : Option LlmContext) (h : LlmHandler) (r : FillerRequest) (q : Packet)
    → h.filler.next_request_token + 1 < 2 ^ 64
    → request_of (llm_dispatch (llm_prepare_interim_filler text c) q h).1 ≡ some r
    → Requests r h.filler (handle_interim_transcript text c h).0.filler
unfolding handle_interim_transcript llm_dispatch request_of
handle_interim-Requests text c h r q small asked =
    ground (arith, on_interim-Requests text h.filler r small)

llm_dispatch-Requests :
    (e : Event) (q : Packet) (h : LlmHandler) (r : FillerRequest)
    → h.filler.next_request_token + 1 < 2 ^ 64
    → request_of (llm_dispatch e q h).1 ≡ some r
    → Requests r h.filler (llm_dispatch e q h).0.filler
unfolding llm_dispatch request_of generate_confirm_bridge sends_next
llm_dispatch-Requests (llm_prepare_interim_filler t c) q h r small asked =
    handle_interim-Requests t c h r q small asked
llm_dispatch-Requests (llm_variable_confirm_request t) q h r small asked =
    absurd (ground (arith, asked))
llm_dispatch-Requests (llm_generate_response c) q h r small asked = absurd (cc asked)
llm_dispatch-Requests vad_interruption_suspected q h r small asked = absurd (cc asked)
llm_dispatch-Requests vad_interruption_confirmed q h r small asked = absurd (cc asked)
llm_dispatch-Requests _ q h r small asked = absurd (cc asked)

on_message-quiet : (m : Text) (h : LlmHandler) → request_of (on_message m h).1 ≡ none
unfolding on_message request_of sends_next
on_message-quiet m h = ground arith

on_tool_call-quiet :
    (t : String) (ps : Params) (h : LlmHandler) → request_of (on_tool_call t ps h).1 ≡ none
unfolding on_tool_call request_of sends_next
on_tool_call-quiet t ps h = ground arith

on_end-quiet : (h : LlmHandler) → request_of (on_end h).1 ≡ none
unfolding on_end request_of sends_next
on_end-quiet h = ground arith

on_poll-quiet : (i : ℕ) (late : Bool) (h : LlmHandler) → request_of (on_poll i late h).1 ≡ none
unfolding on_poll start_completion request_of sends_next
on_poll-quiet i late h = ground arith

on_bridge_answer-quiet :
    (t : Text) (answer : Option (List (String × Json)))
    → request_of (on_bridge_answer t answer) ≡ none
unfolding on_bridge_answer request_of sends_next
on_bridge_answer-quiet t answer = ground arith

llm_step_alive-Requests :
    (i : LlmInput) (h : LlmHandler) (r : FillerRequest)
    → h.filler.next_request_token + 1 < 2 ^ 64
    → request_of (llm_step_alive i h).1 ≡ some r
    → Requests r h.filler (llm_step_alive i h).0.filler
unfolding llm_step_alive llm_handle_event
llm_step_alive-Requests (handles q) h r small asked =
    llm_dispatch-Requests q.event q h r small asked
llm_step_alive-Requests (takes_message m) h r small asked =
    absurd (cc (asked, on_message-quiet m h))
llm_step_alive-Requests (takes_tool_call t ps) h r small asked =
    absurd (cc (asked, on_tool_call-quiet t ps h))
llm_step_alive-Requests takes_start h r small asked = absurd (unfold request_of in cc asked)
llm_step_alive-Requests takes_end h r small asked = absurd (cc (asked, on_end-quiet h))
llm_step_alive-Requests (polls i late) h r small asked = absurd (cc (asked, on_poll-quiet i late h))
llm_step_alive-Requests (answers_filler t u a) h r small asked =
    absurd (unfold request_of in cc asked)
llm_step_alive-Requests (answers_bridge t a) h r small asked =
    absurd (cc (asked, on_bridge_answer-quiet t a))

pub llm_step-Requests :
    (i : LlmInput) (h : LlmHandler) (r : FillerRequest)
    → h.filler.next_request_token + 1 < 2 ^ 64
    → request_of (llm_step i h).1 ≡ some r
    → Requests r h.filler (llm_step i h).0.filler
unfolding llm_step request_of
llm_step-Requests i h r small asked = ground (arith, llm_step_alive-Requests i h r small)
