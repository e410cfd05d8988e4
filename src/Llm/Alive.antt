-- ===== src/Llm/Alive.antt =====
-- The user aggregator and the handler of the language model after it, which reads the context that
-- comes with an interim transcript.
use interact_kit_sdk.Prelude.{
  ◌≡◌, refl, ap, ◌∙◌, Bool, true, false, ◌&&◌, Option, none, some, List, [], ◌∷◌, ◌++◌, arith,
  is_some, All,
}
use interact_kit_sdk.Events.{
  stt_final_output, stt_interim_output, new_event_packet, vad_interruption_confirmed,
  vad_interruption_suspected, llm_generate_response, llm_variable_confirm_request,
  llm_prepare_interim_filler, Packet, Event, LlmContext,
}
use interact_kit_sdk.Conversation.User.{
  regenerates, sends, expire_with, on_sends, timer_fires, regenerate_with, send_captured, on_timer,
  stop_with, start_with, stop_false_positive_timer, confirms, user_on_final, user_on_interim,
  user_on_suspected, user_dispatch, UserAggregator, UserInput, user_step, user_run, user_packet,
}
use interact_kit_sdk.Llm.Handler.{
  new_llm_handler, llm_handle_event, handle_interim_transcript, discard_fillers, llm_dispatch,
  LlmHandler,
}
use interact_kit_sdk.Llm.Loop.{
  takes_end, takes_start, answers_bridge, answers_filler, polls, takes_tool_call, takes_message,
  on_poll, on_end, on_start, on_tool_call, on_message, llm_step_alive, llm_run, handles, llm_step,
  LlmInput,
}

-- Does an interim transcript for a filler come with a context?
abbrev pub has_context : Event → Bool
has_context (llm_prepare_interim_filler t c) = is_some c
has_context _ = true

unfoldable pub all_context : List Packet → Bool
all_context [] = true
all_context (q ∷ qs) = has_context q.event && all_context qs

all_context-append :
    (xs ys : List Packet) → all_context (xs ++ ys) ≡ (all_context xs && all_context ys)
unfolding all_context
all_context-append [] ys = refl
all_context-append (x ∷ xs) ys = ground (arith, all_context-append xs ys)

-- inputs whose packet, if they are one, comes with a context
abbrev pub input_has_context : UserInput → Bool
input_has_context (user_packet q) = has_context q.event
input_has_context _ = true

dispatch-alive :
    (e : Event) (q : Packet) (h : LlmHandler)
    → has_context e ≡ true
    → h.panicked ≡ false
    → (llm_dispatch e q h).0.panicked ≡ false
unfolding llm_dispatch discard_fillers handle_interim_transcript
dispatch-alive (llm_prepare_interim_filler t none) q h c a = absurd (cc c)
dispatch-alive (llm_prepare_interim_filler t (some x)) q h c a = ground arith
dispatch-alive (llm_variable_confirm_request t) q h c a = a
dispatch-alive (llm_generate_response x) q h c a = a
dispatch-alive vad_interruption_suspected q h c a = a
dispatch-alive vad_interruption_confirmed q h c a = a
dispatch-alive _ q h c a = a

-- the packets that a handler of the language model handles
unfoldable pub handled : List LlmInput → List Packet
handled [] = []
handled (handles q ∷ is) = q ∷ handled is
handled (_ ∷ is) = handled is

step-alive :
    (i : LlmInput) (h : LlmHandler)
    → all_context (handled (i ∷ [])) ≡ true
    → h.panicked ≡ false
    → (llm_step i h).0.panicked ≡ false
unfolding llm_step llm_step_alive llm_handle_event on_message on_tool_call on_start on_end on_poll
    handled all_context
step-alive (handles q) h c a = ground (arith, c, dispatch-alive q.event q h)
step-alive (takes_message m) h c a = ground arith
step-alive (takes_tool_call t ps) h c a = ground arith
step-alive takes_start h c a = ground arith
step-alive takes_end h c a = ground arith
step-alive (polls i late) h c a = ground arith
step-alive (answers_filler t u x) h c a = ground arith
step-alive (answers_bridge t x) h c a = ground arith

handled-cons :
    (i : LlmInput) (is : List LlmInput) → handled (i ∷ is) ≡ handled (i ∷ []) ++ handled is
unfolding handled
handled-cons (handles q) is = refl
handled-cons _ is = refl

run-alive :
    (is : List LlmInput) (h : LlmHandler)
    → all_context (handled is) ≡ true
    → h.panicked ≡ false
    → (llm_run is h).0.panicked ≡ false
unfolding llm_run
run-alive [] h c a = a
run-alive (i ∷ is) h c a =
    let e =
      ap all_context (handled-cons i is) ∙ all_context-append (handled (i ∷ [])) (handled is) in
    let now : all_context (handled (i ∷ [])) ≡ true = ground (arith, c, e) in
    let later : all_context (handled is) ≡ true = ground (arith, c, e) in
    run-alive is (llm_step i h).0 later (step-alive i h now a)

-- the context is kept, and what is sent comes with it
record Carries (p : UserAggregator) (out : List Packet) : Type 0 where
  pub kept : is_some p.context ≡ true
  pub sent : all_context out ≡ true

stop-context : (p : UserAggregator) → (stop_false_positive_timer p).context ≡ p.context
unfolding stop_false_positive_timer stop_with
stop-context p = ground arith

start-context : (c : Option LlmContext) (p : UserAggregator) → (start_with c p).context ≡ p.context
unfolding start_with
start-context none p = refl
start-context (some c) p = refl

user_dispatch-Carries :
    (e : Event) (p : UserAggregator)
    → is_some p.context ≡ true
    → Carries (user_dispatch e p).0 (user_dispatch e p).1
unfolding user_dispatch user_on_suspected user_on_interim user_on_final confirms all_context
    new_event_packet
user_dispatch-Carries vad_interruption_suspected p k =
    ground (arith, start-context p.context (stop_false_positive_timer p), stop-context p, k)
user_dispatch-Carries (stt_interim_output t) p k = ground (arith, stop-context p, k)
user_dispatch-Carries (stt_final_output t) p k = ground arith
user_dispatch-Carries _ p k = record { kept = k; sent = refl }

user_step-Carries :
    (i : UserInput) (p : UserAggregator)
    → input_has_context i ≡ true
    → is_some p.context ≡ true
    → Carries (user_step i p).0 (user_step i p).1
unfolding user_step on_timer expire_with on_sends send_captured regenerate_with all_context
    new_event_packet
user_step-Carries (user_packet q) p c k =
    let a = user_dispatch-Carries q.event p k in
    ground (arith, a, c, all_context-append (user_dispatch q.event p).1 (q ∷ []))
user_step-Carries timer_fires p c k = ground (arith, k)
user_step-Carries (sends i) p c k = ground (arith, k)
user_step-Carries regenerates p c k = ground (arith, k)

user_run-Carries :
    (is : List UserInput) (p : UserAggregator)
    → All (λ i. input_has_context i ≡ true) is
    → is_some p.context ≡ true
    → Carries (user_run is p).0 (user_run is p).1
unfolding user_run
user_run-Carries [] p c k = unfold all_context in record { kept = k; sent = refl }
user_run-Carries (i ∷ is) p (c, cs) k =
    let a = user_step-Carries i p c k in
    let b = user_run-Carries is (user_step i p).0 cs a.kept in
    record {
      kept = b.kept;
      sent =
          all_context-append (user_step i p).1 (user_run is (user_step i p).0).1
          ∙ ground (arith, a.sent, b.sent);
    }

-- Where the user aggregator has a context, and no packet that it gets is a transcript for a filler
-- without one: over any inputs to it, and any inputs to a new handler of the language model whose
-- packets are those that the aggregator sends, in order, the process lives; so the context that comes
-- with a transcript is never nil where it is read.
pub context_keeps_alive :
    (us : List UserInput) (is : List LlmInput) (p : UserAggregator) (fillers dedicated : Bool)
    → is_some p.context ≡ true
    → All (λ i. input_has_context i ≡ true) us
    → handled is ≡ (user_run us p).1
    → (llm_run is (new_llm_handler fillers dedicated)).0.panicked ≡ false
unfolding new_llm_handler
context_keeps_alive us is p fillers dedicated k c same =
    run-alive is (new_llm_handler fillers dedicated)
      (ap all_context same ∙ (user_run-Carries us p c k).sent) refl
