-- ===== src/Llm/Discarding.antt =====
-- What the handler sends after an interruption.
use interact_kit_sdk.Events.{
  llm_response_completed, llm_tool_invocation_requested, llm_generate_response, llm_response_chunk,
  Event,
}
use interact_kit_sdk.Prelude.{◌≡◌, Bool, true, false, not, ◌||◌, List, [], ◌∷◌}
use interact_kit_sdk.Llm.Handler.{LlmHandler, LlmEffect, sends}
use interact_kit_sdk.Llm.Loop.{handles, LlmInput}

-- events that carry a response on: its text, a tool call, its end
abbrev pub carries_response : Event → Bool
carries_response (llm_response_chunk t at_once) = not at_once
carries_response (llm_tool_invocation_requested t ps) = true
carries_response (llm_response_completed t) = true
carries_response _ = false

abbrev pub response_effect : LlmEffect → Bool
response_effect (sends q) = carries_response q.event
response_effect _ = false

abbrev starts_response : Event → Bool
starts_response (llm_generate_response c) = true
starts_response _ = false

-- any input but a packet that asks for a response or carries one on itself
abbrev pub no_response_packet : LlmInput → Bool
no_response_packet (handles q) = not (starts_response q.event || carries_response q.event)
no_response_packet _ = true

-- Is a response carried on by any of them?
unfoldable pub carries_any : List LlmEffect → Bool
carries_any [] = false
carries_any (x ∷ xs) = response_effect x || carries_any xs

-- the handler discards, and what it has done carried no response on
record Silent (h : LlmHandler) (out : List LlmEffect) : Type 0 where
  pub discards : h.discarding ≡ true
  pub quiet : carries_any out ≡ false
