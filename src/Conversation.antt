-- ===== src/Conversation.antt =====
-- The conversation that the two context aggregators of handlers/context/context_handler.go keep.
-- `none` is the nil context.
pub mod User
pub mod Assistant
pub mod Regeneration
pub mod Spoken
pub mod Turn
pub mod Late
pub mod Pipeline
pub mod HumanPrompt
pub mod Phrases
pub mod Manager
pub mod ToolCalls
pub mod Tools
pub mod Results
use interact_kit_sdk.Prelude.{Option, none, some, [], ◌∷◌, ◌++◌}
use interact_kit_sdk.Text.{Text}
use interact_kit_sdk.Events.{Role, Event, LlmContext, Packet, next_service, new_event_packet}

-- `append(context.Messages, ...)`
unfoldable pub with_message : Role → Text → LlmContext → LlmContext
with_message r text c = record c {
  messages = c.messages ++ record { role = r; message = text } ∷ [];
}

-- a context, made where there is none
unfoldable pub or_empty : Option LlmContext → LlmContext
or_empty none = record { messages = []; tools = [] }
or_empty (some c) = c

-- a packet of an aggregator to the next handler
abbrev pub to_next : Event → Packet
to_next e = new_event_packet e next_service "LLMContextManager"
