-- ===== src/Task/Effects.antt =====
-- What the operations on a task group leave alone.
use interact_kit_sdk.Prelude.{String, ◌≡◌, Bool, true, false, List, [], ◌∷◌, arith}
use interact_kit_sdk.Task.Config.{TaskDef, TaskGroupConfig}
use interact_kit_sdk.Task.Manager.{
  Manager, on_task_complete, after_complete, emit_task_event, rebuild_tools, clear_dynamic_tools,
  update_task_instruction,
}
use interact_kit_sdk.Text.{Text}

-- `d'` differs from `d` in the conversation, the tools and the events at most
pub record SameTasks (d d' : Manager) : Type 0 where
  pub same_config : d'.config ≡ d.config
  pub same_completed : d'.completed ≡ d.completed
  pub same_collected : d'.collected ≡ d.collected

pub rebuild_tools-SameTasks :
    (c : TaskGroupConfig) (ts : List TaskDef) (d : Manager) → SameTasks d (rebuild_tools c ts d)
unfolding rebuild_tools
rebuild_tools-SameTasks c ts d = ground arith

update-SameTasks : (t : Text) (d : Manager) → SameTasks d (update_task_instruction t d)
unfolding update_task_instruction
update-SameTasks t d = ground arith

clear-SameTasks : (d : Manager) → SameTasks d (clear_dynamic_tools d)
unfolding clear_dynamic_tools
clear-SameTasks d = ground arith

emit-SameTasks : (id : String) (b : Bool) (d : Manager) → SameTasks d (emit_task_event id b d)
unfolding emit_task_event
emit-SameTasks id b d = ground arith

SameTasks-trans : {a b c : Manager} → SameTasks a b → SameTasks b c → SameTasks a c
SameTasks-trans p q = ground arith

after_complete-SameTasks :
    (c : TaskGroupConfig) (id : String) (ts : List TaskDef) (d : Manager)
    → SameTasks d (after_complete c id ts d)
unfolding after_complete
after_complete-SameTasks c id [] d =
    SameTasks-trans (update-SameTasks _ d)
      (SameTasks-trans (clear-SameTasks _) (emit-SameTasks id true _))
after_complete-SameTasks c id (t ∷ ts) d =
    SameTasks-trans (update-SameTasks _ d) (rebuild_tools-SameTasks c (t ∷ ts) _)

-- completing a task adds its identifier to the completed ones, and changes no value
pub on_task_complete-fields :
    (c : TaskGroupConfig) (id : String) (d : Manager)
    → SameTasks (record d { completed = id ∷ d.completed }) (on_task_complete c id d)
unfolding on_task_complete
on_task_complete-fields c id d =
    SameTasks-trans (emit-SameTasks id false _) (after_complete-SameTasks c id _ _)
