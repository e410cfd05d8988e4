-- ===== src/Conversation/ToolCalls.antt =====
-- What the assistant aggregator does with a tool call: `HandleToolCall`, `callServerTool`,
-- `findToolByID` and `isVariableToolError` of handlers/context/context_handler.go.
use interact_kit_sdk.Conversation.{with_message}
use interact_kit_sdk.Task.Manager.{extract_param}
use interact_kit_sdk.Prelude.{
  ℕ, String, Bool, not, ◌&&◌, ◌||◌, Option, none, some, List, [], ◌∷◌, ◌++◌, str_eq, ltb, leb,
  if◌then◌else◌,
}
use interact_kit_sdk.Prelude.Dict.{lookup}
use interact_kit_sdk.Text.{Text, codes, trim_space, has_prefix, contains, decimal}
use interact_kit_sdk.Events.{
  llm_variable_confirm_request, llm_tool_invocation_result, Event, LlmContext, LlmTool, Params,
  system,
}
use interact_kit_sdk.Conversation.Phrases.{random_variable_confirm_phrase}
use interact_kit_sdk.Conversation.Assistant.{commit_text, with_result}
use interact_kit_sdk.Conversation.Manager.{
  LlmContextManager, VariableToolInfo, ToolHandler, EventToolHandler,
}

-- a packet for the top, or a goroutine that posts the call to the server of a tool
pub data ToolOutput : Type 0 where
  fires : Event → ToolOutput
  posts : String → String → Params → ToolOutput

unfoldable pub is_variable_tool_error : Text → Bool
is_variable_tool_error result =
    has_prefix result (codes "Invalid")
    || contains result (codes "is not expected in any currently active task")
    || contains result (codes "No task group is currently loaded")

unfoldable pub find_tool_by_id : String → List LlmTool → Option LlmTool
find_tool_by_id id [] = none
find_tool_by_id id (t ∷ ts) =
    let later = find_tool_by_id id ts in if str_eq t.tool_id id then some t else later

abbrev tools_of : Option LlmContext → List LlmTool
tools_of none = []
tools_of (some c) = c.tools

-- the server of a tool, if it has one
unfoldable pub server_of : String → LlmContextManager → Option String
unfolding find_tool_by_id
server_of id m = elim (find_tool_by_id id (tools_of m.context)) [
  | none ↦ none
  | some t ↦ if str_eq t.server_url "" then none else some t.server_url
]

-- how the request to a server can end
pub data Reply : Type 0 where
  not_prepared unreachable unreadable : Reply
  answered : ℕ → Text → Reply

unfoldable pub call_server_tool : Reply → Text
unfolding decimal
call_server_tool not_prepared = codes "Error: failed to prepare tool call request"
call_server_tool unreachable = codes "Error: failed to reach tool server"
call_server_tool unreadable = codes "Error: failed to read tool server response"
call_server_tool (answered status body) =
    if ltb status 200 || leb 300 status
    then codes "Error: tool server returned status " ++ decimal status
    else body

unfoldable pub call_event_tool :
    String → Text × Option Event → LlmContextManager → LlmContextManager × List ToolOutput
unfolding with_result
call_event_tool id (result, event) m = (
  record m { context = with_result id result m.context },
  elim event [ none ↦ [] | some e ↦ fires e ∷ [] ],
)

-- the result of a call whose value is read back
unfoldable pub with_waiting : String → Text → Option LlmContext → Option LlmContext
unfolding with_message
with_waiting id result none = none
with_waiting id result (some c) = some (
    with_message system
      (codes "Tool "
        ++ (codes id ++ (codes " result: " ++ (result ++ codes " Waiting for caller to confirm."))))
      c)

-- the value is read back, and the result stands in the conversation
unfoldable pub confirm_value :
    ℕ
    → String
    → Text
    → Text
    → VariableToolInfo
    → LlmContextManager
    → LlmContextManager × List ToolOutput
unfolding random_variable_confirm_phrase commit_text with_waiting
confirm_value pick id result value info m =
    let text = random_variable_confirm_phrase pick info.description value info.confirm_phrases in
    (
      record m { context = with_waiting id result (commit_text (trim_space text) m.context) },
      fires (llm_variable_confirm_request text) ∷ [],
    )

-- Is the value of this tool, where it is one of a variable, read back?
unfoldable pub read_back : Text → Option VariableToolInfo → Option VariableToolInfo
unfolding is_variable_tool_error
read_back result none = none
read_back result (some info) =
    if info.auto_confirm && not (is_variable_tool_error result) then some info else none

-- the branch of variable tools, and the standard path after it
unfoldable pub give_result :
    ℕ
    → String
    → Params
    → Text
    → Option VariableToolInfo
    → LlmContextManager
    → LlmContextManager × List ToolOutput
unfolding confirm_value extract_param
give_result pick id params result none m = (m, fires (llm_tool_invocation_result id result) ∷ [])
give_result pick id params result (some info) m =
    confirm_value pick id result (extract_param params "value") info m

unfoldable pub call_standard_tool :
    ℕ
    → String
    → Params
    → Option ToolHandler
    → LlmContextManager
    → LlmContextManager × List ToolOutput
unfolding read_back give_result
call_standard_tool pick id params none m = (m, [])
call_standard_tool pick id params (some handler) m =
    let result = handler params in
    give_result pick id params result (read_back result (lookup id m.variable_tools)) m

unfoldable pub call_server_or_standard :
    ℕ → String → Params → Option String → LlmContextManager → LlmContextManager × List ToolOutput
unfolding call_standard_tool
call_server_or_standard pick id params (some url) m = (m, posts url id params ∷ [])
call_server_or_standard pick id params none m =
    call_standard_tool pick id params (lookup id m.tool_handlers) m

unfoldable pub call_tool :
    ℕ
    → String
    → Params
    → Option EventToolHandler
    → LlmContextManager
    → LlmContextManager × List ToolOutput
unfolding call_event_tool server_of call_server_or_standard
call_tool pick id params (some handler) m = call_event_tool id (handler params) m
call_tool pick id params none m = call_server_or_standard pick id params (server_of id m) m

-- `pick` is what `rand.Intn` returns
unfoldable pub handle_tool_call :
    ℕ → String → Params → LlmContextManager → LlmContextManager × List ToolOutput
unfolding call_tool
handle_tool_call pick id params m = call_tool pick id params (lookup id m.event_tool_handlers) m

-- what the goroutine fires when the server has replied
unfoldable pub on_reply : String → Reply → Event
unfolding call_server_tool
on_reply id reply = llm_tool_invocation_result id (call_server_tool reply)
