-- ===== src/Conversation/Results.antt =====
-- The results of tool calls in the conversation.
use interact_kit_sdk.Conversation.Phrases.{random_variable_confirm_phrase}
use interact_kit_sdk.Task.Manager.{extract_param}
use interact_kit_sdk.Prelude.Dict.{lookup}
use interact_kit_sdk.Conversation.{or_empty, with_message}
use interact_kit_sdk.Conversation.Assistant.{commit_text, tool_result_text, with_result}
use interact_kit_sdk.Prelude.{
  ℕ, suc, ◌+◌, String, ◌≡◌, refl, sym, ap, ◌∙◌, Bool, true, false, ◌&&◌, Option, none, some, List,
  [], ◌∷◌, ◌++◌, append_assoc, arith, if◌then◌else◌,
}
use interact_kit_sdk.Text.{trim_space, is_empty, Text, codes, has_prefix}
use interact_kit_sdk.Events.{
  assistant, llm_tool_invocation_result, system, Event, is_system, LlmContext, LlmMessage, Params,
}
use interact_kit_sdk.Conversation.Manager.{
  ToolHandler, EventToolHandler, VariableToolInfo, LlmContextManager,
}
use interact_kit_sdk.Conversation.ToolCalls.{
  give_result, with_waiting, call_server_or_standard, call_tool, on_reply, call_server_tool,
  read_back, posts, server_of, call_standard_tool, call_event_tool, confirm_value, fires,
  ToolOutput, handle_tool_call, Reply,
}

-- the beginning of the message that holds a result of the tool
abbrev pub tool_prefix : String → Text
tool_prefix id = codes "Tool " ++ (codes id ++ codes " result: ")

abbrev is_result : String → LlmMessage → Bool
is_result id msg = is_system msg.role && has_prefix msg.message (tool_prefix id)

-- the number of system messages that begin so
unfoldable pub count_results : String → List LlmMessage → ℕ
count_results id [] = 0
count_results id (x ∷ xs) = (if is_result id x then 1 else 0) + count_results id xs

abbrev pub results_in : String → Option LlmContext → ℕ
results_in id none = 0
results_in id (some c) = count_results id c.messages

count-append :
    (id : String) (xs ys : List LlmMessage)
    → count_results id (xs ++ ys) ≡ count_results id xs + count_results id ys
unfolding count_results
count-append id [] ys = omega arith
count-append id (x ∷ xs) ys = omega (arith, count-append id xs ys)

has_prefix-append : (p t : Text) → has_prefix (p ++ t) p ≡ true
unfolding has_prefix
has_prefix-append [] t = refl
has_prefix-append (c ∷ cs) t = ground (arith, has_prefix-append cs t)

-- a message that begins so
result-message :
    (id : String) (r : Text)
    → has_prefix (codes "Tool " ++ (codes id ++ (codes " result: " ++ r))) (tool_prefix id) ≡ true
result-message id r =
    ap (λ x. has_prefix x (tool_prefix id))
      (sym (
        append_assoc (codes "Tool ") (codes id ++ codes " result: ") r
        ∙ ap (λ x. codes "Tool " ++ x) (append_assoc (codes id) (codes " result: ") r)))
    ∙ has_prefix-append (tool_prefix id) r

-- a system message that begins so is one more of them
count-snoc :
    (id : String) (xs : List LlmMessage) (t : Text)
    → has_prefix t (tool_prefix id) ≡ true
    → count_results id (xs ++ record { role = system; message = t } ∷ [])
      ≡ suc (count_results id xs)
unfolding count_results is_system
count-snoc id xs t h =
    let m : LlmMessage = record { role = system; message = t } in
    ground (arith, h, count-append id xs (m ∷ []))

with_result-counts :
    (id : String) (r : Text) (c : LlmContext)
    → is_empty r ≡ false
    → results_in id (with_result id r (some c)) ≡ suc (count_results id c.messages)
unfolding with_result with_message tool_result_text
with_result-counts id [] c e = absurd (cc e)
with_result-counts id (x ∷ xs) c e = count-snoc id c.messages _ (result-message id (x ∷ xs))

-- what an event that is fired does to the conversation
abbrev pub settle_event : Event → Option LlmContext → Option LlmContext
settle_event (llm_tool_invocation_result id r) c = with_result id r c
settle_event _ c = c

-- and each output, where the servers give this reply
abbrev pub settle : Reply → List ToolOutput → Option LlmContext → Option LlmContext
settle reply [] c = c
settle reply (fires e ∷ out) c = settle reply out (settle_event e c)
settle reply (posts url id params ∷ out) c = settle reply out (settle_event (on_reply id reply) c)

-- the answer of a tool, if there is one: of its event handler, its server or its handler
unfoldable pub handler_answer : Params → Option ToolHandler → Option Text
handler_answer params none = none
handler_answer params (some handler) = some (handler params)

unfoldable pub server_answer : Params → Reply → Option String → Option ToolHandler → Option Text
server_answer params reply (some url) handler = some (call_server_tool reply)
server_answer params reply none handler = handler_answer params handler

unfoldable pub answer_by :
    Params → Reply → Option EventToolHandler → Option String → Option ToolHandler → Option Text
answer_by params reply (some event_handler) url handler = some (event_handler params).0
answer_by params reply none url handler = server_answer params reply url handler

abbrev pub tool_answer : String → Params → Reply → LlmContextManager → Option Text
tool_answer id params reply m =
    answer_by params reply (lookup id m.event_tool_handlers) (server_of id m)
      (lookup id m.tool_handlers)

abbrev is_tool_result : Option Event → Bool
is_tool_result (some (llm_tool_invocation_result id r)) = true
is_tool_result _ = false

-- Does the event handler of a tool fire the result of a tool itself?
unfoldable pub fires_result : Params → Option EventToolHandler → Bool
fires_result params none = false
fires_result params (some handler) = is_tool_result (handler params).1

settle_other :
    (e : Event) (c : Option LlmContext) → is_tool_result (some e) ≡ false → settle_event e c ≡ c
settle_other (llm_tool_invocation_result id r) c h = absurd (cc h)
settle_other _ c h = refl

-- the results after a call are one more
Counted : String → Reply → LlmContext → LlmContextManager × List ToolOutput → Type 0
unfolding count_results
Counted id reply c (m, out) =
    results_in id (settle reply out m.context) ≡ suc (count_results id c.messages)

event-Counted :
    (id : String) (reply : Reply) (r : Text) (event : Option Event) (c : LlmContext)
    (m : LlmContextManager)
    → is_tool_result event ≡ false
    → is_empty r ≡ false
    → m.context ≡ some c
    → Counted id reply c (call_event_tool id (r, event) m)
unfolding Counted call_event_tool
event-Counted id reply r none c m h e k = rw k (with_result-counts id r c e)
event-Counted id reply r (some event) c m h e k =
    ap (results_in id) (settle_other event (with_result id r m.context) h)
    ∙ rw k (with_result-counts id r c e)

commit-counts :
    (id : String) (t : Text) (c : LlmContext)
    → (c' : LlmContext) × (commit_text t (some c) ≡ some c')
      × (count_results id c'.messages ≡ count_results id c.messages)
unfolding commit_text with_message or_empty count_results is_system
commit-counts id [] c = (c, refl, refl)
commit-counts id (x ∷ xs) c =
    let m : LlmMessage = record { role = assistant; message = x ∷ xs } in
    (
      record c { messages = c.messages ++ m ∷ [] },
      refl,
      count-append id c.messages (m ∷ []) ∙ omega arith,
    )

confirm-Counted :
    (pick : ℕ) (id : String) (r value : Text) (info : VariableToolInfo) (reply : Reply)
    (c : LlmContext) (m : LlmContextManager)
    → m.context ≡ some c
    → Counted id reply c (confirm_value pick id r value info m)
unfolding Counted confirm_value with_waiting with_message
confirm-Counted pick id r value info reply c m k =
    let text = random_variable_confirm_phrase pick info.description value info.confirm_phrases in
    let (c', e, same) = commit-counts id (trim_space text) c in
    let waits = codes " Waiting for caller to confirm." in
    ap (λ x. results_in id (with_waiting id r (commit_text (trim_space text) x))) k
    ∙ ap (λ x. results_in id (with_waiting id r x)) e
    ∙ count-snoc id c'.messages _ (result-message id (r ++ waits))
    ∙ ap (λ n. suc n) same

result-Counted :
    (pick : ℕ) (id : String) (params : Params) (r : Text) (reply : Reply) (c : LlmContext)
    (info : Option VariableToolInfo) (m : LlmContextManager)
    → is_empty r ≡ false
    → m.context ≡ some c
    → Counted id reply c (give_result pick id params r info m)
unfolding give_result Counted
result-Counted pick id params r reply c none m e k =
    ap (λ x. results_in id (with_result id r x)) k ∙ with_result-counts id r c e
result-Counted pick id params r reply c (some info) m e k =
    confirm-Counted pick id r (extract_param params "value") info reply c m k

standard-Counted :
    (pick : ℕ) (id : String) (params : Params) (r : Text) (reply : Reply) (c : LlmContext)
    (handler : Option ToolHandler) (m : LlmContextManager)
    → handler_answer params handler ≡ some r
    → is_empty r ≡ false
    → m.context ≡ some c
    → Counted id reply c (call_standard_tool pick id params handler m)
unfolding call_standard_tool handler_answer
standard-Counted pick id params r reply c none m a e k = absurd (cc a)
standard-Counted pick id params r reply c (some handler) m a e k =
    let result = handler params in
    result-Counted pick id params result reply c (read_back result (lookup id m.variable_tools)) m
      (ground (arith, a, e)) k

server-Counted :
    (pick : ℕ) (id : String) (params : Params) (r : Text) (reply : Reply) (c : LlmContext)
    (url : Option String) (m : LlmContextManager)
    → server_answer params reply url (lookup id m.tool_handlers) ≡ some r
    → is_empty r ≡ false
    → m.context ≡ some c
    → Counted id reply c (call_server_or_standard pick id params url m)
unfolding call_server_or_standard server_answer
server-Counted pick id params r reply c none m a e k =
    standard-Counted pick id params r reply c (lookup id m.tool_handlers) m a e k
server-Counted pick id params r reply c (some url) m a e k =
    unfold Counted on_reply in
    ap (λ x. results_in id (with_result id (call_server_tool reply) x)) k
    ∙ with_result-counts id (call_server_tool reply) c (ground (arith, a, e))

call-Counted :
    (pick : ℕ) (id : String) (params : Params) (r : Text) (reply : Reply) (c : LlmContext)
    (handler : Option EventToolHandler) (m : LlmContextManager)
    → answer_by params reply handler (server_of id m) (lookup id m.tool_handlers) ≡ some r
    → fires_result params handler ≡ false
    → is_empty r ≡ false
    → m.context ≡ some c
    → Counted id reply c (call_tool pick id params handler m)
unfolding call_tool answer_by fires_result
call-Counted pick id params r reply c none m a f e k =
    server-Counted pick id params r reply c (server_of id m) m a e k
call-Counted pick id params r reply c (some handler) m a f e k =
    event-Counted id reply (handler params).0 (handler params).1 c m f (ground (arith, a, e)) k

-- A call of a tool that has an answer which is not empty (of its event handler, its server, or its
-- handler), where the event handler fires no result of a tool itself: once the results that are
-- fired, by the call or after the reply of the server, have been handled, the conversation has
-- exactly one more system message that begins as a result of this tool does.
pub result_recorded_once :
    (pick : ℕ) (id : String) (params : Params) (r : Text) (reply : Reply) (c : LlmContext)
    (m : LlmContextManager)
    → tool_answer id params reply m ≡ some r
    → fires_result params (lookup id m.event_tool_handlers) ≡ false
    → is_empty r ≡ false
    → m.context ≡ some c
    → let (m', out) = handle_tool_call pick id params m in
      results_in id (settle reply out m'.context) ≡ suc (count_results id c.messages)
unfolding handle_tool_call Counted
result_recorded_once pick id params r reply c m a f e k =
    call-Counted pick id params r reply c (lookup id m.event_tool_handlers) m a f e k
