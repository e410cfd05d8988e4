-- ===== src/Task/Load.antt =====
-- `LoadTaskGroup` and `registerVariableHandlersLocked` of
-- handlers/context/dynamic_context_manager.go.
use interact_kit_sdk.Prelude.{
  ℕ, suc, String, Option, none, some, List, [], ◌∷◌, ◌++◌, if◌then◌else◌, take, drop,
}
use interact_kit_sdk.Prelude.Dict.{insert}
use interact_kit_sdk.Events.{LlmMessage, LlmContext, is_system, system}
use interact_kit_sdk.Task.Config.{
  TaskVariable, TaskDef, TaskGroupConfig, find_task, visible_tasks, mem,
}
use interact_kit_sdk.Task.Prompt.{build_task_instructions}
use interact_kit_sdk.Task.Tools.{set_tool_id}
use interact_kit_sdk.Task.Manager.{Manager, rebuild_tools, sets}
use interact_kit_sdk.Conversation.{or_empty}

-- the loop that finds the insertion point: after the leading system messages
unfoldable pub insertion_index : List LlmMessage → ℕ
insertion_index [] = 0
insertion_index (m ∷ ms) = let rest = insertion_index ms in if is_system m.role then suc rest else 0

unfoldable pub insert_message : ℕ → LlmMessage → List LlmMessage → List LlmMessage
insert_message i m ms = take i ms ++ (m ∷ drop i ms)

unfoldable pub register_variable : TaskVariable → Manager → Manager
register_variable v d = record d {
  tool_handlers = insert (set_tool_id v.name) (sets v.name) d.tool_handlers;
  variable_tools =
      insert (set_tool_id v.name)
        (record {
          description = v.description;
          auto_confirm = v.auto_confirm;
          confirm_phrases = v.confirm_phrases;
        })
        d.variable_tools;
}

-- the inner loop; `registered` holds the identifiers of the tools registered so far
unfoldable pub register_variables :
    List TaskVariable → List String → Manager → List String × Manager
unfolding register_variable
register_variables [] registered d = (registered, d)
register_variables (v ∷ vs) registered d =
    let skipped = register_variables vs registered d in
    let done = register_variables vs (set_tool_id v.name ∷ registered) (register_variable v d) in
    if mem (set_tool_id v.name) registered then skipped else done

unfoldable pub register_tasks : List TaskDef → List String → Manager → Manager
unfolding register_variables
register_tasks [] registered d = d
register_tasks (t ∷ ts) registered d =
    let (registered', d') = register_variables t.variables registered d in
    register_tasks ts registered' d'

-- what `LoadTaskGroup` does before it builds the tools
unfoldable pub install : TaskGroupConfig → LlmContext → Manager → Manager
unfolding insertion_index insert_message
install config ctx d =
    let i = insertion_index ctx.messages in
    let text = build_task_instructions (visible_tasks [] config.tasks) in
    record d {
      config = some config;
      completed = [];
      collected = [];
      permanent_tools = ctx.tools;
      context = some (record ctx {
        messages = insert_message i (record { role = system; message = text }) ctx.messages;
      });
      instr_index = i;
    }

-- all that follows the test for the initial task
unfoldable pub start_group : TaskGroupConfig → Manager → Manager
unfolding install register_tasks or_empty
start_group config d =
    register_tasks config.tasks []
      (rebuild_tools config (visible_tasks [] config.tasks) (install config (or_empty d.context) d))

-- `none` is the error of an initial task that is not declared
unfoldable pub load_task_group : TaskGroupConfig → Manager → Option Manager
unfolding start_group
load_task_group config d = elim (find_task config.tasks config.initial_task_id) [
  | none ↦ none
  | some t ↦ some (start_group config d)
]
