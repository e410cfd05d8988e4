-- ===== src/Conversation/Assistant.antt =====
-- `LLMAssistantContextAggregator`. A call of `HandleEvent` returns the new state and what it gives
-- away, in order; the goroutine that a tool call starts is an output. Texts are code points: a byte
-- of a longer one is no white space, so that the tests on the first and the last byte agree.
use interact_kit_sdk.Prelude.{
  ℕ, String, Bool, true, false, not, ◌&&◌, ◌||◌, Option, none, some, List, [], ◌∷◌, ◌++◌, str_eq,
  ◌==◌, if◌then◌else◌, get_elem?,
}
use interact_kit_sdk.Text.{Text, codes, trim_space}
use interact_kit_sdk.Events.{
  vad_interruption_confirmed, llm_response_started, llm_tool_invocation_result,
  llm_response_completed, tts_spoken_text_chunk, llm_tool_invocation_requested, tts_speak,
  llm_generate_response, Event, LlmContext, Packet, Params, assistant, system, new_event_packet,
  top_service,
}
use interact_kit_sdk.Conversation.{with_message, or_empty, to_next}

pub record AssistantAggregator : Type 0 where
  pub context : Option LlmContext
  pub spoken_buffer : Text
  pub has_active_turn : Bool
  pub interrupted : Bool

-- a packet, a goroutine that handles a tool call, or a nil dereference
pub data AssistantOutput : Type 0 where
  gives : Packet → AssistantOutput
  calls_tool : String → Params → AssistantOutput
  panics : AssistantOutput

unfoldable pub is_whitespace : ℕ → Bool
is_whitespace r = r == 32 || r == 9 || r == 10 || r == 13

-- a text that ends, or begins, with something else than white space
unfoldable pub ends_in_word : Text → Bool
unfolding is_whitespace
ends_in_word [] = false
ends_in_word (c ∷ []) = not (is_whitespace c)
ends_in_word (c ∷ d ∷ cs) = ends_in_word (d ∷ cs)

unfoldable pub begins_with_word : Text → Bool
unfolding is_whitespace
begins_with_word [] = false
begins_with_word (c ∷ cs) = not (is_whitespace c)

-- the spoken words with one more chunk
unfoldable pub add_spoken : Text → Text → Text
add_spoken spoken text =
    if ends_in_word spoken && begins_with_word text then spoken ++ (32 ∷ text) else spoken ++ text

unfoldable pub commit_text : Text → Option LlmContext → Option LlmContext
unfolding with_message or_empty
commit_text [] c = c
commit_text (x ∷ xs) c = some (with_message assistant (x ∷ xs) (or_empty c))

unfoldable pub commit_assistant_message : Text → AssistantAggregator → AssistantAggregator
unfolding commit_text
commit_assistant_message text p = record p { context = commit_text (trim_space text) p.context }

abbrev pub continue_listening : String
continue_listening = "continue_listening"

abbrev pub acks : List Text
acks = codes "Uh-huh?..." ∷ codes "Mm-hmm?..." ∷ codes "Yeah?..." ∷ []

-- `randomAck`; `pick` is what `rand.Intn` returns
unfoldable pub random_ack : ℕ → Text
random_ack pick = elim (get_elem? acks pick) [ none ↦ [] | some t ↦ t ]

unfoldable pub on_tool_request : ℕ → String → Params → List AssistantOutput
unfolding random_ack
on_tool_request pick id params =
    if str_eq id continue_listening
    then gives (to_next (tts_speak (random_ack pick))) ∷ []
    else calls_tool id params ∷ []

unfoldable pub on_spoken : Text → AssistantAggregator → AssistantAggregator
unfolding add_spoken
on_spoken text p =
    if p.has_active_turn && not p.interrupted
    then record p { spoken_buffer = add_spoken p.spoken_buffer text }
    else p

unfoldable pub on_interruption : AssistantAggregator → AssistantAggregator
unfolding commit_assistant_message
on_interruption p =
    if p.has_active_turn
    then record (commit_assistant_message p.spoken_buffer (record p { interrupted = true })) {
      spoken_buffer = [];
      has_active_turn = false;
    }
    else p

unfoldable pub on_completed : Text → AssistantAggregator → AssistantAggregator
unfolding commit_assistant_message
on_completed full p =
    let q = if p.has_active_turn && not p.interrupted then commit_assistant_message full p else p in
    record q { spoken_buffer = []; has_active_turn = false }

unfoldable pub tool_result_text : String → Text → Text
tool_result_text id result = codes "Tool " ++ (codes id ++ (codes " result: " ++ result))

unfoldable pub with_result : String → Text → Option LlmContext → Option LlmContext
unfolding with_message tool_result_text
with_result id result none = none
with_result id [] (some c) = some c
with_result id (x ∷ xs) (some c) = some (with_message system (tool_result_text id (x ∷ xs)) c)

unfoldable pub generate_with : Option LlmContext → List AssistantOutput
generate_with none = panics ∷ []
generate_with (some c) =
    gives (new_event_packet (llm_generate_response c) top_service "LLMContextManager") ∷ []

unfoldable pub on_tool_result :
    String → Text → AssistantAggregator → AssistantAggregator × List AssistantOutput
unfolding with_result generate_with
on_tool_result id result p =
    let c = with_result id result p.context in
    (record p { context = c }, if str_eq id continue_listening then [] else generate_with c)

-- the type switch of `HandleEvent`
unfoldable pub assistant_dispatch :
    ℕ → Event → AssistantAggregator → AssistantAggregator × List AssistantOutput
unfolding on_tool_request on_spoken on_interruption on_completed on_tool_result
assistant_dispatch pick (llm_tool_invocation_requested id params) p =
    (p, on_tool_request pick id params)
assistant_dispatch pick llm_response_started p =
    (record p { spoken_buffer = []; interrupted = false; has_active_turn = true }, [])
assistant_dispatch pick (tts_spoken_text_chunk text) p = (on_spoken text p, [])
assistant_dispatch pick vad_interruption_confirmed p = (on_interruption p, [])
assistant_dispatch pick (llm_response_completed full) p = (on_completed full p, [])
assistant_dispatch pick (llm_tool_invocation_result id result) p = on_tool_result id result p
assistant_dispatch pick _ p = (p, [])

-- the packet is sent on last, which a panic prevents
unfoldable pub send_on : List AssistantOutput → Packet → List AssistantOutput
send_on [] q = gives q ∷ []
send_on (panics ∷ out) q = panics ∷ []
send_on (gives r ∷ out) q = gives r ∷ send_on out q
send_on (calls_tool id params ∷ out) q = calls_tool id params ∷ send_on out q

unfoldable pub assistant_handle_event :
    ℕ → Packet → AssistantAggregator → AssistantAggregator × List AssistantOutput
unfolding assistant_dispatch send_on
assistant_handle_event pick q p =
    let (p', out) = assistant_dispatch pick q.event p in (p', send_on out q)

-- the states after events, each with the number that a random choice takes
unfoldable pub assistant_run : List (ℕ × Packet) → AssistantAggregator → AssistantAggregator
unfolding assistant_handle_event
assistant_run [] p = p
assistant_run ((pick, q) ∷ qs) p = assistant_run qs (assistant_handle_event pick q p).0
