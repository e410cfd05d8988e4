-- ===== src/Conversation/User.antt =====
-- `LLMUserContextAggregator`, whose timer tells a real interruption from a noise. One goroutine
-- handles packets and the signals of the channel. When the timer expires its callback starts in a
-- goroutine of its own, which sends in a step of its own: Stop does not wait for it.
use interact_kit_sdk.Prelude.{
  ℕ, zero, suc, Bool, true, false, Option, none, some, List, [], ◌∷◌, ◌++◌, if◌then◌else◌,
}
use interact_kit_sdk.Text.{Text}
use interact_kit_sdk.Events.{
  vad_interruption_suspected, stt_final_output, llm_prepare_interim_filler,
  vad_interruption_confirmed, llm_generate_response, stt_interim_output, Event, LlmContext, Packet,
  user,
}
use interact_kit_sdk.Conversation.{with_message, or_empty, to_next}

-- `false_positive_timer` holds what the callback captured, and `armed` says that this timer has
-- neither expired nor been stopped. `sending` are the contexts that callbacks have which have started
-- and not sent yet. `has_channel` is `falsePositiveRegenerateChan != nil`, and
-- `regenerate` is what the channel of size 1 holds.
pub record UserAggregator : Type 0 where
  pub context : Option LlmContext
  pub false_positive_timer : Option LlmContext
  pub armed : Bool
  pub sending : List LlmContext
  pub has_channel : Bool
  pub regenerate : Option LlmContext

pub data UserInput : Type 0 where
  user_packet : Packet → UserInput
  timer_fires regenerates : UserInput
  sends : ℕ → UserInput

-- A stopped timer that had expired has the channel drained, where its callback may not have sent yet.
unfoldable pub stop_with : Option LlmContext → UserAggregator → UserAggregator
stop_with none p = p
stop_with (some c) p = record p {
  false_positive_timer = none;
  armed = false;
  regenerate = if p.armed then p.regenerate else none;
}

unfoldable pub stop_false_positive_timer : UserAggregator → UserAggregator
unfolding stop_with
stop_false_positive_timer p = stop_with p.false_positive_timer p

unfoldable pub start_with : Option LlmContext → UserAggregator → UserAggregator
start_with none p = p
start_with (some c) p = record p { false_positive_timer = some c; armed = true }

unfoldable pub user_on_suspected : UserAggregator → UserAggregator
unfolding stop_false_positive_timer start_with
user_on_suspected p = start_with p.context (stop_false_positive_timer p)

-- the test `falsePositiveTimer != nil`, and what is sent where it holds
unfoldable pub confirms : Option LlmContext → List Packet
confirms none = []
confirms (some c) = to_next vad_interruption_confirmed ∷ []

unfoldable pub user_on_interim : Text → UserAggregator → UserAggregator × List Packet
unfolding stop_false_positive_timer confirms
user_on_interim text p = (
  stop_false_positive_timer p,
  confirms p.false_positive_timer ++ to_next (llm_prepare_interim_filler text p.context) ∷ [],
)

unfoldable pub user_on_final : Text → UserAggregator → UserAggregator × List Packet
unfolding stop_false_positive_timer with_message or_empty
user_on_final text p =
    let c = with_message user text (or_empty p.context) in
    (
      record (stop_false_positive_timer p) { context = some c },
      to_next (llm_generate_response c) ∷ [],
    )

-- the type switch of `HandleEvent`
unfoldable pub user_dispatch : Event → UserAggregator → UserAggregator × List Packet
unfolding user_on_suspected user_on_interim user_on_final
user_dispatch vad_interruption_suspected p = (user_on_suspected p, [])
user_dispatch (stt_interim_output text) p = user_on_interim text p
user_dispatch (stt_final_output text) p = user_on_final text p
user_dispatch _ p = (p, [])

-- the expiry of the timer, which starts its callback
unfoldable pub expire_with : Option LlmContext → UserAggregator → UserAggregator
expire_with none p = p
expire_with (some c) p = record p { armed = false; sending = p.sending ++ c ∷ [] }

unfoldable pub on_timer : UserAggregator → UserAggregator
unfolding expire_with
on_timer p = if p.armed then expire_with p.false_positive_timer p else p

-- one of the callbacks that have started, and the others
unfoldable pub take_callback : ℕ → List LlmContext → Option (LlmContext × List LlmContext)
take_callback i [] = none
take_callback zero (c ∷ cs) = some (c, cs)
take_callback (suc i) (c ∷ cs) = elim (take_callback i cs) [
  | none ↦ none
  | some (d, ds) ↦ some (d, c ∷ ds)
]

-- the send of a callback, which is dropped where the channel is full or nil
unfoldable pub send_captured :
    Option (LlmContext × List LlmContext) → UserAggregator → UserAggregator
send_captured none p = p
send_captured (some (c, others)) p = record p {
  sending = others;
  regenerate =
      if p.has_channel then elim p.regenerate [ none ↦ some c | some d ↦ some d ] else p.regenerate;
}

unfoldable pub on_sends : ℕ → UserAggregator → UserAggregator
unfolding take_callback send_captured
on_sends i p = send_captured (take_callback i p.sending) p

-- the second case of the event loop
unfoldable pub regenerate_with : Option LlmContext → UserAggregator → UserAggregator × List Packet
regenerate_with none p = (p, [])
regenerate_with (some c) p =
    (record p { regenerate = none }, to_next (llm_generate_response c) ∷ [])

unfoldable pub user_step : UserInput → UserAggregator → UserAggregator × List Packet
unfolding user_dispatch on_timer on_sends regenerate_with
user_step (user_packet q) p = let (p', out) = user_dispatch q.event p in (p', out ++ q ∷ [])
user_step timer_fires p = (on_timer p, [])
user_step (sends i) p = (on_sends i p, [])
user_step regenerates p = regenerate_with p.regenerate p

unfoldable pub user_run : List UserInput → UserAggregator → UserAggregator × List Packet
user_run [] p = (p, [])
user_run (i ∷ is) p =
    let (p', out) = user_step i p in let (p'', later) = user_run is p' in (p'', out ++ later)
