-- ===== src/Task/Values.antt =====
-- The values that `handleSetVariable` collects, and the variables that they were collected for.
use interact_kit_sdk.Events.{Params}
use interact_kit_sdk.Prelude.{
  String, ◌≡◌, refl, inl, inr, true, Option, some, List, [], ◌∷◌, arith, str_eq, eq_iff,
  if◌then◌else◌, Bool-cases, Elem,
}
use interact_kit_sdk.Prelude.Dict.{lookup, lookup-insert}
use interact_kit_sdk.Text.{Text}
use interact_kit_sdk.Task.Config.{
  visible_tasks, TaskVariable, TaskDef, TaskGroupConfig, Regexp, find_variable, validate,
}
use interact_kit_sdk.Task.Tools.{Collected, values_of}
use interact_kit_sdk.Task.Manager.{
  register_tool, extract_param, handle_set_variable, complete_current_task, complete_first, Manager,
}
use interact_kit_sdk.Task.Steps.{
  start, registers, completes, sets_variable, capture-fields, handle_set_variable-cases,
  Reach-induction, Reach, stored,
}
use interact_kit_sdk.Task.Effects.{on_task_complete-fields}

-- the value collected for a variable of a task
abbrev pub value_at : String → String → Collected → Option Text
value_at id name c = lookup name (values_of id c)

pub record Accepts (re : Regexp) (c : TaskGroupConfig) (id name : String) (value : Text)
    : Type 0 where
  pub task : TaskDef
  pub variable : TaskVariable
  pub declared : Elem task c.tasks
  pub has_id : task.id ≡ id
  pub owns : find_variable task.variables name ≡ some variable
  pub valid : validate re variable value ≡ true

abbrev pub AllAccepted : Regexp → TaskGroupConfig → Collected → Type 0
AllAccepted re c m =
    (id name : String) (value : Text) → value_at id name m ≡ some value → Accepts re c id name value

-- a stored value is read back, and no other value changes
value_at-stored :
    (id name i n : String) (value : Text) (d : Manager)
    → value_at i n (stored id name value d) ≡ (
        if str_eq id i
        then if str_eq name n then some value else value_at i n d.collected
        else value_at i n d.collected)
unfolding values_of
value_at-stored id name i n value d = elim (Bool-cases (str_eq id i)) [
  | inr other ↦ rw (lookup-insert, other, values_of)
  | inl same ↦ rw (lookup-insert, same, values_of) (rw lookup-insert (ground (arith, eq_iff id i)))
]

-- nothing but a capture changes the values
complete_first-collected :
    (c : TaskGroupConfig) (ts : List TaskDef) (d : Manager)
    → (complete_first c ts d).collected ≡ d.collected
unfolding complete_first
complete_first-collected c [] d = refl
complete_first-collected c (t ∷ ts) d = (on_task_complete-fields c t.id d).same_collected

complete_current_task-collected :
    (c : TaskGroupConfig) (d : Manager) {d' : Manager}
    → complete_current_task d ≡ some d'
    → d.config ≡ some c
    → d'.collected ≡ d.collected
unfolding complete_current_task
complete_current_task-collected c d h e =
    ground (arith, complete_first-collected c (visible_tasks d.completed c.tasks) d)

module _ (re : Regexp) (c : TaskGroupConfig) where
  stored-AllAccepted :
      (t : TaskDef) (v : TaskVariable) (name : String) (value : Text) (d : Manager)
      → Elem t c.tasks
      → find_variable t.variables name ≡ some v
      → validate re v value ≡ true
      → AllAccepted re c d.collected
      → AllAccepted re c (stored t.id name value d)
  stored-AllAccepted t v name value d m owns good old i n x h = elim (Bool-cases (str_eq t.id i)) [
    | inr other ↦ old i n x (ground (arith, value_at-stored t.id name i n value d))
    | inl same ↦ elim (Bool-cases (str_eq name n)) [
      | inr other ↦ old i n x (ground (arith, value_at-stored t.id name i n value d))
      | inl same' ↦ record {
        task = t;
        variable = v;
        declared = m;
        has_id = (eq_iff t.id i).0 same;
        owns = rw (← (eq_iff name n).0 same') owns;
        valid = ground (arith, value_at-stored t.id name i n value d);
      }
    ]
  ]

  handle_set_variable-AllAccepted :
      (name : String) (call : Params) (d : Manager)
      → d.config ≡ some c
      → AllAccepted re c d.collected
      → AllAccepted re c (handle_set_variable re name call d).0.collected
  handle_set_variable-AllAccepted name call d e old =
      elim (handle_set_variable-cases re c name call d e) [
        | inl same ↦ rw same old
        | inr k ↦
            let value = extract_param call "value" in
            rw (k.result, (capture-fields c k.task name value d k.declared k.scoped).1)
              (stored-AllAccepted k.task k.variable name value d k.declared k.owns k.valid old)
      ]

  loaded : {d0 d : Manager} → d0.config ≡ some c → Reach re d0 d → d.config ≡ some c
  loaded e r = (Reach-induction re c (λ _. Unit {0}) (λ _ _ _ _. tt) e tt r).0

  -- nothing that the operations do brings in a value that was not checked
  Reach-AllAccepted :
      {d0 d : Manager}
      → d0.config ≡ some c
      → d0.collected ≡ []
      → Reach re d0 d
      → AllAccepted re c d.collected
  unfolding values_of lookup register_tool
  Reach-AllAccepted e none_yet start = rw none_yet (λ id name value h. cc h)
  Reach-AllAccepted e none_yet (sets_variable {d} name call r) =
      handle_set_variable-AllAccepted name call d (loaded e r) (Reach-AllAccepted e none_yet r)
  Reach-AllAccepted e none_yet (completes {d} r h) =
      rw (complete_current_task-collected c d h (loaded e r)) (Reach-AllAccepted e none_yet r)
  Reach-AllAccepted e none_yet (registers {d} t f r) = Reach-AllAccepted e none_yet r

  -- In every state that the operations reach from one with no values, each stored value belongs to
  -- a variable of a declared task, and that variable's constraints accept it: a value that fails
  -- its check is never kept, whatever the LLM calls.
  pub collected_accepted :
      {d0 d : Manager}
      → d0.config ≡ some c
      → d0.collected ≡ []
      → Reach re d0 d
      → (id name : String) (value : Text) → value_at id name d.collected ≡ some value
      → Accepts re c id name value
  collected_accepted e none_yet r = Reach-AllAccepted e none_yet r
