-- ===== src/Llm/Loop.antt =====
-- The event loop of handlers/llm/llm_handler.go, and the goroutines that wait for a filler or for an
-- answer of a service. What the services send on the channels, and what they answer, are inputs.
use interact_kit_sdk.Prelude.{
  ℕ, suc, String, ◌≡◌, Bool, true, false, Option, none, some, List, [], ◌∷◌, ◌++◌, arith,
  if◌then◌else◌, get_elem?, take, drop,
}
use interact_kit_sdk.Text.{Text, is_empty}
use interact_kit_sdk.Events.{
  llm_tool_invocation_requested, llm_response_completed, tts_speak, llm_response_chunk, Params,
  Packet, LlmContext,
}
use interact_kit_sdk.Llm.Handler.{
  runs_completion, resets_service, LlmEffect, LlmHandler, continue_context, llm_handle_event,
  sends_next,
}
use interact_kit_sdk.Llm.Answers.{Json, parse_filler_response, parse_confirm_bridge_response, ◌>>=◌}
use interact_kit_sdk.Llm.Filler.{
  store_result, poll_filler, get_consumed_filler, clear_after_response, request_failed, FillerState,
}

-- What can happen: a packet arrives; the event loop takes a message, a tool call, or the start or
-- the end of a completion from its channel; a waiting goroutine looks at the filler, perhaps after
-- its deadline; a service answers for the filler of a token and an utterance, or for a bridge
-- (`none`: with an error).
pub data LlmInput : Type 0 where
  handles : Packet → LlmInput
  takes_message : Text → LlmInput
  takes_tool_call : String → Params → LlmInput
  takes_start takes_end : LlmInput
  polls : ℕ → Bool → LlmInput
  answers_filler : ℕ → ℕ → Option (List (String × Json)) → LlmInput
  answers_bridge : Text → Option (List (String × Json)) → LlmInput

-- the cases of the event loop
unfoldable pub on_message : Text → LlmHandler → LlmHandler × List LlmEffect
unfolding sends_next
on_message m h =
    if h.discarding
    then (h, [])
    else (record h { full_text = h.full_text ++ m }, sends_next (llm_response_chunk m false) ∷ [])

unfoldable pub on_tool_call : String → Params → LlmHandler → LlmHandler × List LlmEffect
unfolding sends_next
on_tool_call tool_id params h =
    if h.discarding
    then (h, [])
    else (h, sends_next (llm_tool_invocation_requested tool_id params) ∷ [])

unfoldable pub on_start : LlmHandler → LlmHandler
unfolding get_consumed_filler
on_start h = if h.discarding then h else record h { full_text = get_consumed_filler h.filler }

unfoldable pub on_end : LlmHandler → LlmHandler × List LlmEffect
unfolding clear_after_response sends_next
on_end h = if h.discarding then (record h { full_text = [] }, []) else (
  record h { full_text = []; filler = clear_after_response h.filler },
  sends_next (llm_response_completed h.full_text) ∷ [],
)

-- The list without the element at an index.
abbrev pub remove_at : ℕ → List LlmContext → List LlmContext
remove_at i cs = take i cs ++ drop (suc i) cs

-- the goroutine of `LLMGenerateResponseEvent` after its wait
unfoldable pub start_completion : Text → LlmContext → List LlmEffect
unfolding continue_context sends_next
start_completion filler c =
    if is_empty filler
    then resets_service ∷ runs_completion c ∷ []
    else resets_service
      ∷ sends_next (llm_response_chunk filler true)
      ∷ runs_completion (continue_context filler c)
      ∷ []

unfoldable pub on_poll : ℕ → Bool → LlmHandler → LlmHandler × List LlmEffect
unfolding poll_filler start_completion
on_poll i late h = elim (get_elem? h.waiting i) [
  | none ↦ (h, [])
  | some c ↦
      let (filler, result) = poll_filler late h.filler in
      elim result [
        | none ↦ (record h { filler = filler }, [])
        | some t ↦
            (record h { filler = filler; waiting = remove_at i h.waiting }, start_completion t c)
      ]
]

-- `generateFiller` after the service has answered
unfoldable pub on_filler_answer : ℕ → ℕ → Option (List (String × Json)) → FillerState → FillerState
unfolding request_failed store_result parse_filler_response
on_filler_answer token utterance answer f = elim (answer >>= parse_filler_response) [
  | none ↦ request_failed token utterance f
  | some (filler, skip) ↦ store_result token utterance filler skip f
]

-- and `generateConfirmBridge`
unfoldable pub on_bridge_answer : Text → Option (List (String × Json)) → List LlmEffect
unfolding parse_confirm_bridge_response sends_next
on_bridge_answer confirm_text answer = elim answer [
  | none ↦ sends_next (tts_speak confirm_text) ∷ []
  | some raw ↦ sends_next (tts_speak (parse_confirm_bridge_response raw confirm_text)) ∷ []
]

unfoldable pub llm_step_alive : LlmInput → LlmHandler → LlmHandler × List LlmEffect
unfolding llm_handle_event on_message on_tool_call on_start on_end on_poll on_filler_answer
    on_bridge_answer
llm_step_alive (handles q) h = llm_handle_event q h
llm_step_alive (takes_message m) h = on_message m h
llm_step_alive (takes_tool_call tool_id params) h = on_tool_call tool_id params h
llm_step_alive takes_start h = (on_start h, [])
llm_step_alive takes_end h = on_end h
llm_step_alive (polls i late) h = on_poll i late h
llm_step_alive (answers_filler token utterance answer) h =
    (record h { filler = on_filler_answer token utterance answer h.filler }, [])
llm_step_alive (answers_bridge confirm_text answer) h = (h, on_bridge_answer confirm_text answer)

unfoldable pub llm_step : LlmInput → LlmHandler → LlmHandler × List LlmEffect
unfolding llm_step_alive
llm_step i h = if h.panicked then (h, []) else llm_step_alive i h

pub llm_step_alive_lem :
    (i : LlmInput) (h : LlmHandler) → h.panicked ≡ false → llm_step i h ≡ llm_step_alive i h
unfolding llm_step
llm_step_alive_lem i h alive = ground arith

unfoldable pub llm_run : List LlmInput → LlmHandler → LlmHandler × List LlmEffect
llm_run [] h = (h, [])
llm_run (i ∷ is) h =
    let (h', out) = llm_step i h in let (h'', later) = llm_run is h' in (h'', out ++ later)
