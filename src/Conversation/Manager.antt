-- ===== src/Conversation/Manager.antt =====
-- `LLMContextManager` of handlers/context/context_handler.go, and what the assistant aggregator does
-- with a tool call (`HandleToolCall`). A handler of a tool is the function that it is when the call
-- comes; the state that it changes elsewhere is not part of the manager.
use interact_kit_sdk.Prelude.{
  String, Bool, true, false, ◌||◌, Option, none, some, List, [], ◌∷◌, ◌++◌, map, str_eq, ◌==◌,
  if◌then◌else◌,
}
use interact_kit_sdk.Prelude.Dict.{lookup, insert}
use interact_kit_sdk.Text.{Text, codes, trim_space}
use interact_kit_sdk.Events.{
  is_system, string, end_call, boolean, Event, LlmContext, LlmMessage, LlmTool, Params,
}
use interact_kit_sdk.Conversation.HumanPrompt.{human_like_response_prompt}
use interact_kit_sdk.Conversation.Assistant.{continue_listening}

pub record VariableToolInfo : Type 0 where
  pub description : Text
  pub auto_confirm : Bool
  pub confirm_phrases : List Text

abbrev pub ToolHandler : Type 0
ToolHandler = Params → Text

-- `none` is a nil event
abbrev pub EventToolHandler : Type 0
EventToolHandler = Params → Text × Option Event

pub record LlmContextManager : Type 0 where
  pub context : Option LlmContext
  pub tool_handlers : List (String × ToolHandler)
  pub event_tool_handlers : List (String × EventToolHandler)
  pub variable_tools : List (String × VariableToolInfo)
  pub allow_continue_listening : Bool
  pub human_like_speech : Bool

abbrev pub end_call_id : String
end_call_id = "end_call"

abbrev pub continue_listening_tool : LlmTool
continue_listening_tool = record {
  name = "";
  tool_id = continue_listening;
  description =
      codes "Trigger ONLY when the user's message is clearly incomplete, cut-off mid-sentence, or "
      ++ codes
          "trailing (e.g., ends with an ellipsis, a partial word, or an unfinished clause). Do "
      ++ codes "NOT trigger for short but complete messages like one-word answers ('Yes', 'No', "
      ++ codes
          "'Thanks') or typical conversational fragments that are semantically self-contained. "
      ++ codes "If unsure, default to false.";
  parameters =
      record {
        name = codes "allow_listen";
        description =
            codes "Set to true to continue listening for more user input when the message appears "
            ++ codes "incomplete.";
        required = true;
        example = [];
        type = boolean;
      }
      ∷ [];
  server_url = "";
}

abbrev pub end_call_tool : LlmTool
end_call_tool = record {
  name = end_call_id;
  tool_id = end_call_id;
  description =
      codes "End the call after you have finished your closing words. Call this only when the "
      ++ codes
          "conversation is fully complete and the caller has been properly served or transferred.";
  parameters =
      record {
        name = codes "reason";
        description =
            codes "Brief reason the call is ending (e.g. 'estimate scheduled', 'transferred to "
            ++ codes "staff', 'caller hung up').";
        required = false;
        example = [];
        type = string;
      }
      ∷ [];
  server_url = "";
}

-- the handler of end_call, whose line breaks become spaces
unfoldable pub end_call_handler : EventToolHandler
end_call_handler params =
    let reason : Text = elim (lookup "reason" params) [
      | none ↦ codes "not specified"
      | some v ↦ trim_space (map (λ c. if c == 10 then 32 else c) v)
    ] in
    (codes "Call ended: " ++ reason, some (end_call reason))

unfoldable pub new_llm_context_manager : Bool → Bool → LlmContextManager
unfolding end_call_handler
new_llm_context_manager allow human = record {
  context = some (record { messages = []; tools = [] });
  tool_handlers =
      if allow
      then (continue_listening, λ params. codes "Continue listening signal sent.") ∷ []
      else [];
  event_tool_handlers = (end_call_id, end_call_handler) ∷ [];
  variable_tools = [];
  allow_continue_listening = allow;
  human_like_speech = human;
}

unfoldable pub register_tool_handler : String → ToolHandler → LlmContextManager → LlmContextManager
unfolding insert
register_tool_handler name handler m = record m {
  tool_handlers = insert name handler m.tool_handlers;
}

unfoldable pub register_event_tool_handler :
    String → EventToolHandler → LlmContextManager → LlmContextManager
unfolding insert
register_event_tool_handler name handler m = record m {
  event_tool_handlers = insert name handler m.event_tool_handlers;
}

unfoldable pub register_variable_tool :
    String → VariableToolInfo → LlmContextManager → LlmContextManager
unfolding insert
register_variable_tool id info m = record m { variable_tools = insert id info m.variable_tools }

-- the loops of `SetContext` that look for a tool
unfoldable pub has_tool : String → List LlmTool → Bool
has_tool id [] = false
has_tool id (t ∷ ts) = str_eq t.tool_id id || has_tool id ts

unfoldable pub ensure_tool : LlmTool → List LlmTool → List LlmTool
unfolding has_tool
ensure_tool t ts = if has_tool t.tool_id ts then ts else ts ++ t ∷ []

unfoldable pub humanize : LlmMessage → LlmMessage
unfolding is_system human_like_response_prompt
humanize msg =
    if is_system msg.role
    then record msg { message = msg.message ++ 10 ∷ 10 ∷ human_like_response_prompt }
    else msg

unfoldable pub set_context : LlmContext → LlmContextManager → LlmContextManager
unfolding ensure_tool humanize
set_context c m =
    let listening =
      if m.allow_continue_listening then ensure_tool continue_listening_tool c.tools else c.tools in
    record m {
      context = some (record {
        messages = if m.human_like_speech then map humanize c.messages else c.messages;
        tools = ensure_tool end_call_tool listening;
      });
    }
