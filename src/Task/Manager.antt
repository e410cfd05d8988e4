-- ===== src/Task/Manager.antt =====
-- `DynamicContextManager` of handlers/context/dynamic_context_manager.go. Each operation runs under
-- the mutex of the manager, so it is one step. The embedded context manager's fields that it reads
-- or writes stand beside its own. Logging is left out, and the texts of the replies to the LLM are
-- the constructors of `SetReply`, one for each format string.
use interact_kit_sdk.Prelude.{
  ℕ, zero, suc, String, Bool, true, false, ◌&&◌, Option, none, some, List, [], ◌∷◌, ◌++◌,
  if◌then◌else◌,
}
use interact_kit_sdk.Prelude.Dict.{lookup, insert}
use interact_kit_sdk.Text.{Text, is_empty}
use interact_kit_sdk.Events.{LlmTool, LlmMessage, LlmContext, Params, Event, task_variables}
use interact_kit_sdk.Conversation.Manager.{VariableToolInfo}
use interact_kit_sdk.Task.Config.{
  TaskVariable, TaskDef, TaskGroupConfig, Regexp, validate, visible_tasks, find_owner,
}
use interact_kit_sdk.Task.Prompt.{closing_instruction, build_task_instructions}
use interact_kit_sdk.Task.Tools.{Values, Collected, values_of, is_collected, build_tools}

-- a handler that the application registers, or the closure of a set_* tool over its variable
pub data RegisteredHandler : Type 0 where
  external : (Params → Text) → RegisteredHandler
  sets : String → RegisteredHandler

-- `emitter` is `eventEmitter != nil`, and `emitted` holds the events given to it. A set of
-- completed tasks is the list of its members.
pub record Manager : Type 0 where
  pub config : Option TaskGroupConfig
  pub permanent_tools : List LlmTool
  pub tool_registry : List (String × LlmTool)
  pub completed : List String
  pub collected : Collected
  pub instr_index : ℕ
  pub context : Option LlmContext
  pub tool_handlers : List (String × RegisteredHandler)
  pub variable_tools : List (String × VariableToolInfo)
  pub emitter : Bool
  pub emitted : List Event

unfoldable pub register_tool : LlmTool → (Params → Text) → Manager → Manager
register_tool t f d = record d {
  tool_registry = insert t.tool_id t d.tool_registry;
  tool_handlers = insert t.tool_id (external f) d.tool_handlers;
}

-- the message at an index, replaced; nothing where there is none
unfoldable pub set_message : List LlmMessage → ℕ → Text → List LlmMessage
set_message [] i text = []
set_message (m ∷ ms) zero text = record m { message = text } ∷ ms
set_message (m ∷ ms) (suc i) text = m ∷ set_message ms i text

unfoldable pub update_task_instruction : Text → Manager → Manager
unfolding set_message
update_task_instruction text d = elim d.context [
  | none ↦ d
  | some c ↦ record d {
    context = some (record c { messages = set_message c.messages d.instr_index text });
  }
]

unfoldable pub set_tools : List LlmTool → Manager → Manager
set_tools tools d = elim d.context [
  | none ↦ d
  | some c ↦ record d { context = some (record c { tools = tools }) }
]

unfoldable pub rebuild_tools : TaskGroupConfig → List TaskDef → Manager → Manager
unfolding set_tools
rebuild_tools config tasks d =
    set_tools (build_tools d.permanent_tools d.tool_registry config d.collected tasks) d

unfoldable pub clear_dynamic_tools : Manager → Manager
unfolding set_tools
clear_dynamic_tools d = set_tools d.permanent_tools d

-- the loops of `emitTaskEventLocked`: all values in one map
unfoldable pub flatten_values : Values → Values → Values
flatten_values [] flat = flat
flatten_values ((k, v) ∷ vs) flat = flatten_values vs (insert k v flat)

unfoldable pub flatten_collected : Collected → Values → Values
unfolding flatten_values
flatten_collected [] flat = flat
flatten_collected ((id, vs) ∷ c) flat = flatten_collected c (flatten_values vs flat)

unfoldable pub emit_task_event : String → Bool → Manager → Manager
emit_task_event id final d =
    if d.emitter
    then record d {
      emitted = d.emitted ++ task_variables id final (flatten_collected d.collected []) ∷ [];
    }
    else d

unfoldable pub all_vars_collected : Values → List TaskVariable → Bool
all_vars_collected vs [] = true
all_vars_collected vs (v ∷ rest) = is_collected v.name vs && all_vars_collected vs rest

-- what `onTaskCompleteLocked` does once the task is marked
unfoldable pub after_complete : TaskGroupConfig → String → List TaskDef → Manager → Manager
after_complete config id [] d =
    emit_task_event id true (clear_dynamic_tools (update_task_instruction closing_instruction d))
after_complete config id (t ∷ ts) d =
    rebuild_tools config (t ∷ ts) (update_task_instruction (build_task_instructions (t ∷ ts)) d)

unfoldable pub on_task_complete : TaskGroupConfig → String → Manager → Manager
on_task_complete config id d =
    let marked = record d { completed = id ∷ d.completed } in
    after_complete config id (visible_tasks (id ∷ d.completed) config.tasks)
      (emit_task_event id false marked)

-- The public queries and `CompleteCurrentTask`; `none` is a panic: `visibleTasksLocked` reads the
-- tasks through the nil pointer of a manager without a task group.
unfoldable pub current_visible : Manager → Option (List TaskDef)
current_visible d = elim d.config [
  | none ↦ none
  | some c ↦ some (visible_tasks d.completed c.tasks)
]

unfoldable pub first_id : List TaskDef → String
first_id [] = ""
first_id (t ∷ ts) = t.id

unfoldable pub current_task_id : Manager → Option String
unfolding current_visible first_id
current_task_id d = elim (current_visible d) [ none ↦ none | some ts ↦ some (first_id ts) ]

unfoldable pub is_complete : Manager → Bool
unfolding current_visible
is_complete d = elim (current_visible d) [ none ↦ false | some ts ↦ is_empty ts ]

unfoldable pub complete_first : TaskGroupConfig → List TaskDef → Manager → Manager
complete_first config [] d = d
complete_first config (t ∷ ts) d = on_task_complete config t.id d

unfoldable pub complete_with : Option TaskGroupConfig → Manager → Option Manager
complete_with none d = none
complete_with (some c) d = some (complete_first c (visible_tasks d.completed c.tasks) d)

unfoldable pub complete_current_task : Manager → Option Manager
unfolding complete_with
complete_current_task d = complete_with d.config d

pub data SetReply : Type 0 where
  no_group : SetReply
  not_expected : String → SetReply
  invalid_value : Text → String → TaskVariable → SetReply
  captured_all : String → Text → Text → SetReply
  captured : String → Text → Text → List String → SetReply

-- the variables of a task that have no value yet
unfoldable pub pending : Values → List TaskVariable → List String
pending vs [] = []
pending vs (v ∷ rest) = if is_collected v.name vs then pending vs rest else v.name ∷ pending vs rest

-- `extractParam`
unfoldable pub extract_param : Params → String → Text
extract_param ps key = elim (lookup key ps) [ none ↦ [] | some v ↦ v ]

unfoldable pub store_value : String → String → Text → Manager → Manager
store_value id name value d = record d {
  collected = insert id (insert name value (values_of id d.collected)) d.collected;
}

-- `handleSetVariable` once the owner is found and the value is valid
unfoldable pub capture : TaskGroupConfig → TaskDef → String → Text → Manager → Manager × SetReply
capture config t name value d =
    let stored = store_value t.id name value d in
    let rebuilt = rebuild_tools config (visible_tasks d.completed config.tasks) stored in
    let vs = values_of t.id stored.collected in
    if all_vars_collected vs t.variables
    then (on_task_complete config t.id rebuilt, captured_all name value t.name)
    else (rebuilt, captured name value t.name (pending vs t.variables))

module _ (re : Regexp) where
  unfoldable pub set_owned :
      TaskGroupConfig
      → Option (TaskDef × TaskVariable)
      → String
      → Text
      → Manager
      → Manager × SetReply
  set_owned config none name value d = (d, not_expected name)
  set_owned config (some (t, v)) name value d =
      if validate re v value then capture config t name value d else (d, invalid_value value name v)

  unfoldable pub set_with : Option TaskGroupConfig → String → Text → Manager → Manager × SetReply
  set_with none name value d = (d, no_group)
  set_with (some c) name value d =
      set_owned c (find_owner (visible_tasks d.completed c.tasks) name) name value d

  unfoldable pub handle_set_variable : String → Params → Manager → Manager × SetReply
  unfolding set_with
  handle_set_variable name call d = set_with d.config name (extract_param call "value") d
