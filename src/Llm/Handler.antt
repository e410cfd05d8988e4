-- ===== src/Llm/Handler.antt =====
-- `LLMHandler` of handlers/llm/llm_handler.go: its state, what it asks of the services, and the packets
-- that it handles. `panicked` says that the process has died.
use interact_kit_sdk.Prelude.{
  Bool, true, false, Option, none, some, List, [], ◌∷◌, ◌++◌, if◌then◌else◌,
}
use interact_kit_sdk.Text.{Text, codes, is_empty}
use interact_kit_sdk.Events.{
  vad_interruption_confirmed, vad_interruption_suspected, llm_prepare_interim_filler,
  llm_response_started, llm_generate_response, llm_variable_confirm_request, tts_speak, Event,
  Packet, next_service, new_event_packet, LlmContext, LlmMessage, Role, assistant, system, user,
}
use interact_kit_sdk.Llm.Filler.{
  new_filler_state, get_consumed_filler, clear_after_response, on_interim, FillerState,
  FillerRequest,
}
use interact_kit_sdk.Llm.Prompt.{filler_prompt}

abbrev is_assistant : Role → Bool
is_assistant assistant = true
is_assistant _ = false

-- the text of the last message of the assistant
unfoldable pub last_assistant_message : Text → List LlmMessage → Text
last_assistant_message found [] = found
last_assistant_message found (m ∷ ms) =
    last_assistant_message (if is_assistant m.role then m.message else found) ms

-- `waiting` are the goroutines that wait for a filler before they run the completion, each with the
-- context of its event, and `full_text` is the variable of the event loop.
pub record LlmHandler : Type 0 where
  pub filler : FillerState
  pub has_filler_service : Bool
  pub discarding : Bool
  pub full_text : Text
  pub waiting : List LlmContext
  pub panicked : Bool

unfoldable pub new_llm_handler : Bool → Bool → LlmHandler
unfolding new_filler_state
new_llm_handler generate_fillers has_filler_service = record {
  filler = new_filler_state generate_fillers;
  has_filler_service = has_filler_service;
  discarding = false;
  full_text = [];
  waiting = [];
  panicked = false;
}

-- What the handler does: it sends a packet, or it calls a service. The first argument of the last
-- two says whether the service for fillers is called in place of the main one; a bridge is asked for
-- with the filler that was spoken and the text to confirm.
pub data LlmEffect : Type 0 where
  sends : Packet → LlmEffect
  resets_service : LlmEffect
  runs_completion : LlmContext → LlmEffect
  asks_filler : Bool → LlmContext → FillerRequest → LlmEffect
  asks_bridge : Bool → Text → Text → LlmEffect

unfoldable pub sends_next : Event → LlmEffect
unfolding new_event_packet
sends_next e = sends (new_event_packet e next_service "LLMHandler")

-- the prompt of `generateFiller`
unfoldable pub filler_context : Text → LlmContext → LlmContext
unfolding last_assistant_message filler_prompt
filler_context partial c = record {
  messages =
      record { role = system; message = filler_prompt }
      ∷ record {
        role = system;
        message = codes "Context for filler generation: " ++ last_assistant_message [] c.messages;
      }
      ∷ record {
        role = user;
        message =
            codes "Generate a filler for this partial transcript:"
            ++ 10 ∷ 32 ∷ partial
            ++ codes "...";
      }
      ∷ [];
  tools = [];
}

-- the context of a completion that continues a filler
unfoldable pub continue_context : Text → LlmContext → LlmContext
continue_context filler c = record {
  messages =
      c.messages
      ++ record {
        role = system;
        message =
            codes "The response already starts with \""
            ++ filler
            ++ codes "\". Do NOT repeat it. Continue seamlessly from that point. "
            ++ codes "Begin your output with \"...\" followed by the continuation.";
      }
        ∷ [];
  tools = c.tools;
}

-- `handleInterimTranscript`; the context is read through its pointer as soon as a filler is wanted
unfoldable pub handle_interim_transcript :
    Text → Option LlmContext → LlmHandler → LlmHandler × List LlmEffect
unfolding on_interim filler_context
handle_interim_transcript text context h =
    let (filler, wanted) = on_interim text h.filler in
    let h' = record h { filler = filler } in
    elim wanted [
      | none ↦ (h', [])
      | some r ↦ elim context [
        | none ↦ (record h' { panicked = true }, [])
        | some c ↦ (h', asks_filler h.has_filler_service (filler_context r.text c) r ∷ [])
      ]
    ]

unfoldable pub generate_confirm_bridge : Text → Text → LlmHandler → List LlmEffect
unfolding sends_next
generate_confirm_bridge consumed confirm_text h =
    if is_empty consumed
    then sends_next (tts_speak confirm_text) ∷ []
    else asks_bridge h.has_filler_service consumed confirm_text ∷ []

unfoldable pub discard_fillers : LlmHandler → LlmHandler
unfolding clear_after_response
discard_fillers h = record h { discarding = true; filler = clear_after_response h.filler }

-- the cases of `HandleEvent`, by the event of the packet
unfoldable pub llm_dispatch : Event → Packet → LlmHandler → LlmHandler × List LlmEffect
unfolding get_consumed_filler clear_after_response generate_confirm_bridge discard_fillers
    handle_interim_transcript sends_next
llm_dispatch (llm_variable_confirm_request confirm_text) q h = (
  record h { filler = clear_after_response h.filler },
  generate_confirm_bridge (get_consumed_filler h.filler) confirm_text h,
)
llm_dispatch (llm_generate_response context) q h = (
  record h { discarding = false; waiting = h.waiting ++ context ∷ [] },
  sends_next llm_response_started ∷ sends q ∷ [],
)
llm_dispatch vad_interruption_suspected q h = (discard_fillers h, sends q ∷ [])
llm_dispatch vad_interruption_confirmed q h = (discard_fillers h, resets_service ∷ sends q ∷ [])
llm_dispatch (llm_prepare_interim_filler text context) q h =
    let (h', out) = handle_interim_transcript text context h in
    (h', out ++ (if h'.panicked then [] else sends q ∷ []))
llm_dispatch _ q h = (h, sends q ∷ [])

unfoldable pub llm_handle_event : Packet → LlmHandler → LlmHandler × List LlmEffect
unfolding llm_dispatch
llm_handle_event q h = llm_dispatch q.event q h
