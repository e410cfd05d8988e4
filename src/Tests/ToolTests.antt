-- ===== src/Tests/ToolTests.antt =====
-- Tool calls and contexts: handlers/context/context_handler.go.
use interact_kit_sdk.Task.Manager.{extract_param}
use interact_kit_sdk.Prelude.Dict.{lookup}
use interact_kit_sdk.Events.{llm_variable_confirm_request, LlmTool, LlmContext, Params}
use interact_kit_sdk.Conversation.Phrases.{
  replace_from, replace_all, trim_punctuation, fill, before_bracket, desc_to_speech_label,
  random_variable_confirm_phrase,
}
use interact_kit_sdk.Prelude.{suc, ◌≡◌, refl, true, false, some, [], ◌∷◌}
use interact_kit_sdk.Text.{
  has_prefix, contains, is_space, trim_right, trim_left, trim_space, decimal_onto, decimal, codes,
}
use interact_kit_sdk.Conversation.Manager.{VariableToolInfo, LlmContextManager}
use interact_kit_sdk.Conversation.ToolCalls.{
  fires, is_variable_tool_error, confirm_value, posts, read_back, give_result, find_tool_by_id,
  server_of, call_standard_tool, call_server_or_standard, call_tool, call_server_tool,
  handle_tool_call, Reply,
}
use interact_kit_sdk.Conversation.Results.{
  tool_answer, count_results, handler_answer, settle, server_answer, results_in, answer_by,
  fires_result, result_recorded_once,
}

abbrev weather : LlmTool
weather = record {
  name = "weather";
  tool_id = "weather";
  description = [];
  parameters = [];
  server_url = "https://tools.example/weather";
}

abbrev talk : LlmContext
talk = record { messages = []; tools = weather ∷ [] }

abbrev city : VariableToolInfo
city = record {
  description = codes "City (of the caller).";
  auto_confirm = true;
  confirm_phrases = codes "So it is {{value}}?" ∷ [];
}

abbrev manager : LlmContextManager
manager = record {
  context = some talk;
  tool_handlers = ("set_city", λ params. codes "Stored.") ∷ [];
  event_tool_handlers = [];
  variable_tools = ("set_city", city) ∷ [];
  allow_continue_listening = true;
  human_like_speech = false;
}

abbrev params : Params
params = ("value", codes "Bonn") ∷ []

set_city_answer : tool_answer "set_city" params Reply.unreachable manager ≡ some (codes "Stored.")
unfolding answer_by server_answer handler_answer lookup server_of find_tool_by_id
set_city_answer = refl

set_city_event : fires_result params (lookup "set_city" manager.event_tool_handlers) ≡ false
unfolding fires_result lookup
set_city_event = refl

recorded_once_example :
    let (m', out) = handle_tool_call 0 "set_city" params manager in
    results_in "set_city" (settle Reply.unreachable out m'.context)
    ≡ suc (count_results "set_city" [])
recorded_once_example =
    result_recorded_once 0 "set_city" params (codes "Stored.") Reply.unreachable talk manager
      set_city_answer set_city_event refl refl

asks_back :
    (handle_tool_call 0 "set_city" params manager).1
    ≡ fires (llm_variable_confirm_request (codes "So it is Bonn?")) ∷ []
unfolding handle_tool_call call_tool call_server_or_standard call_standard_tool give_result
    read_back confirm_value lookup server_of find_tool_by_id is_variable_tool_error contains
    has_prefix random_variable_confirm_phrase replace_all replace_from extract_param
asks_back = refl

calls_server :
    (handle_tool_call 0 "weather" params manager).1
    ≡ posts "https://tools.example/weather" "weather" params ∷ []
unfolding handle_tool_call call_tool call_server_or_standard lookup server_of find_tool_by_id
calls_server = refl

label : desc_to_speech_label (codes "City (of the caller).") ≡ codes "City"
unfolding desc_to_speech_label before_bracket trim_punctuation trim_space trim_left trim_right
    is_space
label = refl

read_back_phrase :
    random_variable_confirm_phrase 4 (codes "city.") (codes "Bonn") []
    ≡ codes "Ok, so your city is Bonn — did I get that right?"
unfolding random_variable_confirm_phrase fill desc_to_speech_label before_bracket trim_punctuation
read_back_phrase = refl

server_error :
    call_server_tool (Reply.answered 503 (codes "busy"))
    ≡ codes "Error: tool server returned status 503"
unfolding call_server_tool decimal decimal_onto
server_error = refl
