-- ===== src/Tests/TaskTests.antt =====
-- Runs of a task group: handlers/context/dynamic_context_manager.go.
use interact_kit_sdk.Prelude.Dict.{insert, lookup}
use interact_kit_sdk.Task.Tools.{is_collected, values_of}
use interact_kit_sdk.Prelude.{
  String, ◌≡◌, refl, ◌⊎◌, inl, inr, true, false, Option, none, some, List, [], ◌∷◌, arith,
  str_distinct,
}
use interact_kit_sdk.Text.{text_eq, Text, codes}
use interact_kit_sdk.Events.{Params}
use interact_kit_sdk.Task.Config.{
  matches, is_visible, is_disappeared, allowed, validate, find_variable, in_scope, visible_tasks,
  find_owner, TaskVariable, TaskDef, TaskGroupConfig, Regexp, mem,
}
use interact_kit_sdk.Task.Manager.{
  update_task_instruction, set_with, set_tools, set_message, rebuild_tools, pending, flatten_values,
  flatten_collected, emit_task_event, current_visible, clear_dynamic_tools, after_complete,
  on_task_complete, store_value, all_vars_collected, capture, extract_param, set_owned,
  not_expected, Manager, handle_set_variable, is_complete,
}
use interact_kit_sdk.Task.Steps.{Reach, start, sets_variable}
use interact_kit_sdk.Task.Branching.{
  UniqueIds, IsBranch, branch_exclusive, completed_after_predecessor,
}
use interact_kit_sdk.Task.Values.{value_at, Accepts, collected_accepted}
use interact_kit_sdk.Task.Progress.{complete_times, complete_times-is_complete}

abbrev pub variable : String → List Text → TaskVariable
variable n e = record {
  name = n;
  description = [];
  regex = [];
  enum = e;
  example = [];
  auto_confirm = false;
  confirm_phrases = [];
}

abbrev task : String → List TaskVariable → String → String → TaskDef
task i vs after gone = record {
  id = i;
  name = codes i;
  instructions = [];
  variables = vs;
  disappear_after = gone;
  visible_tool_ids = [];
  visible_after = after;
}

abbrev reason : TaskDef
reason = task "reason" (variable "call_reason" (codes "new" ∷ codes "old" ∷ []) ∷ []) "" ""

abbrev pub new_job : TaskDef
new_job = task "new_job" (variable "address" [] ∷ []) "reason" "old_job"

abbrev old_job : TaskDef
old_job = task "old_job" (variable "job_id" [] ∷ []) "reason" "new_job"

abbrev pub intake : TaskGroupConfig
intake = record {
  namespace = "intake";
  base_instructions = [];
  initial_task_id = "reason";
  global_tools = [];
  tasks = reason ∷ new_job ∷ old_job ∷ [];
}

abbrev pub loaded : Option TaskGroupConfig → Manager
loaded c = record {
  config = c;
  permanent_tools = [];
  tool_registry = [];
  completed = [];
  collected = [];
  instr_index = 0;
  context = none;
  tool_handlers = [];
  variable_tools = [];
  emitter = true;
  emitted = [];
}

abbrev no_regexp : Regexp
no_regexp _ = none

intake-UniqueIds : UniqueIds intake
intake-UniqueIds s t m n e = ground (
  arith,
  str_distinct "reason" "new_job" refl,
  str_distinct "reason" "old_job" refl,
  str_distinct "new_job" "old_job" refl,
)

intake-IsBranch : IsBranch intake new_job old_job
intake-IsBranch = record {
  a_declared = inr (inl refl);
  b_declared = inr (inr (inl refl));
  a_disappears = refl;
  b_disappears = refl;
  a_named = str_distinct "new_job" "" refl;
  b_named = str_distinct "old_job" "" refl;
  distinct = str_distinct "new_job" "old_job" refl;
}

abbrev call : String → Params
call v = ("value", codes v) ∷ []

-- the caller asks for a new job: the reason is captured, and then the address
unfoldable after_reason : Manager
unfolding handle_set_variable is_complete set_owned find_owner visible_tasks in_scope mem
    find_variable validate text_eq extract_param lookup insert capture all_vars_collected
    is_collected values_of store_value on_task_complete allowed is_disappeared is_visible matches
    after_complete clear_dynamic_tools current_visible emit_task_event flatten_collected
    flatten_values pending rebuild_tools set_message set_tools set_with update_task_instruction
after_reason = (handle_set_variable no_regexp "call_reason" (call "new") (loaded (some intake))).0

unfoldable after_address : Manager
unfolding after_reason
after_address = (handle_set_variable no_regexp "address" (call "Main St") after_reason).0

after_address-Reach : Reach no_regexp (loaded (some intake)) after_address
unfolding after_address
after_address-Reach =
    sets_variable "address" (call "Main St") (sets_variable "call_reason" (call "new") start)

after_address_runs :
    (after_address.completed ≡ "new_job" ∷ "reason" ∷ [])
    × (is_complete after_address ≡ true)
    × ((handle_set_variable no_regexp "job_id" (call "7") after_address).1 ≡ not_expected "job_id")
unfolding after_address
after_address_runs = (refl, refl, refl)

new_job_done : mem "new_job" after_address.completed ≡ true
unfolding after_address
new_job_done = refl

address_kept : value_at "new_job" "address" after_address.collected ≡ some (codes "Main St")
unfolding after_address
address_kept = refl

after_reason_loaded : after_reason.config ≡ some intake
unfolding after_reason
after_reason_loaded = refl

branch_exclusive_example :
    (mem "new_job" after_address.completed ≡ false)
    ⊎ (mem "old_job" after_address.completed ≡ false)
branch_exclusive_example =
    branch_exclusive no_regexp intake new_job old_job intake-UniqueIds intake-IsBranch refl refl
      after_address-Reach

completed_after_predecessor_example :
    (◌≡◌ {A = String} "reason" "") ⊎ (mem "reason" after_address.completed ≡ true)
completed_after_predecessor_example =
    completed_after_predecessor no_regexp intake new_job intake-UniqueIds (inr (inl refl)) refl refl
      after_address-Reach new_job_done

collected_accepted_example : Accepts no_regexp intake "new_job" "address" (codes "Main St")
collected_accepted_example =
    collected_accepted no_regexp intake refl refl after_address-Reach "new_job" "address"
      (codes "Main St") address_kept

complete_times_example :
    (d : Manager) × (complete_times 3 after_reason ≡ some d) × (is_complete d ≡ true)
complete_times_example = complete_times-is_complete intake after_reason after_reason_loaded
