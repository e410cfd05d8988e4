-- ===== src/Task/Steps.antt =====
-- The operations on a loaded task group as steps, and what each does to the completed tasks.
use interact_kit_sdk.Task.Effects.{rebuild_tools-SameTasks, on_task_complete-fields}
use interact_kit_sdk.Events.{LlmTool, Params}
use interact_kit_sdk.Prelude.Dict.{insert}
use interact_kit_sdk.Task.Tools.{values_of, Collected}
use interact_kit_sdk.Prelude.{
  String, ◌≡◌, refl, sym, ap, ◌∙◌, ◌⊎◌, inl, inr, true, Option, none, some, List, [], ◌∷◌, arith,
  Bool-cases, Elem,
}
use interact_kit_sdk.Task.Config.{
  validate, Regexp, find_variable, TaskVariable, find_owner, TaskDef, TaskGroupConfig,
  visible_tasks, in_scope,
}
use interact_kit_sdk.Task.Manager.{
  extract_param, handle_set_variable, set_with, set_owned, complete_current_task, register_tool,
  store_value, capture, complete_first, Manager, on_task_complete, rebuild_tools,
}
use interact_kit_sdk.Text.{Text}

-- One task that is in scope is marked complete.
pub data Advance (c : TaskGroupConfig) (done : List String) : List String → Type 0 where
  finish :
      {done' : List String} (t : TaskDef)
      → Elem t c.tasks
      → in_scope done t ≡ true
      → done' ≡ t.id ∷ done
      → Advance c done done'

pub visible_tasks-Elem :
    (done : List String) (ts : List TaskDef) (t : TaskDef)
    → Elem t (visible_tasks done ts)
    → Elem t ts × (in_scope done t ≡ true)
unfolding visible_tasks
visible_tasks-Elem done [] t m = elim m [ ]
visible_tasks-Elem done (u ∷ us) t m = ground (arith, visible_tasks-Elem done us t)

find_owner_sound :
    (ts : List TaskDef) (name : String) (t : TaskDef) (v : TaskVariable)
    → find_owner ts name ≡ some (t, v)
    → Elem t ts × (find_variable t.variables name ≡ some v)
unfolding find_owner
find_owner_sound [] name t v h = cc
find_owner_sound (u ∷ us) name t v h = ground (arith, find_owner_sound us name t v)

-- `d'` comes from `d` by nothing, or by completing one task in scope
abbrev pub Moves : TaskGroupConfig → Manager → Manager → Type 0
Moves c d d' =
    (d'.config ≡ d.config) × ((d'.completed ≡ d.completed) ⊎ Advance c d.completed d'.completed)

on_task_complete-Advance :
    (c : TaskGroupConfig) (t : TaskDef) (d d' : Manager)
    → d'.completed ≡ d.completed
    → Elem t c.tasks
    → in_scope d.completed t ≡ true
    → Advance c d.completed (on_task_complete c t.id d').completed
on_task_complete-Advance c t d d' e m s =
    finish t m s (ground (arith, on_task_complete-fields c t.id d'))

complete_first-Moves :
    (c : TaskGroupConfig) (d : Manager) (ts : List TaskDef)
    → ((t : TaskDef) → Elem t ts → Elem t c.tasks × (in_scope d.completed t ≡ true))
    → Moves c d (complete_first c ts d)
unfolding complete_first
complete_first-Moves c d [] h = (refl, inl refl)
complete_first-Moves c d (t ∷ ts) h =
    let (m, s) = h t (inl refl) in
    (
      (on_task_complete-fields c t.id d).same_config,
      inr (on_task_complete-Advance c t d d refl m s),
    )

-- the values after a capture: the old ones, and the new one
abbrev pub stored : String → String → Text → Manager → Collected
stored id name value d = insert id (insert name value (values_of id d.collected)) d.collected

-- `capture` stores the value, and completes its task or leaves the completed tasks alone
pub capture-fields :
    (c : TaskGroupConfig) (t : TaskDef) (name : String) (value : Text) (d : Manager)
    → Elem t c.tasks
    → in_scope d.completed t ≡ true
    → Moves c d (capture c t name value d).0
      × ((capture c t name value d).0.collected ≡ stored t.id name value d)
unfolding capture store_value
capture-fields c t name value d m s =
    let d1 = store_value t.id name value d in
    let d2 = rebuild_tools c (visible_tasks d.completed c.tasks) d1 in
    let r = rebuild_tools-SameTasks c (visible_tasks d.completed c.tasks) d1 in
    ground (
      arith,
      r,
      on_task_complete-fields c t.id d2,
      on_task_complete-Advance c t d d2 r.same_completed m s,
    )

-- What `handleSetVariable` does to a loaded manager: nothing, or it captures a valid value for a
-- variable of a task in scope.
pub record Captures (re : Regexp) (c : TaskGroupConfig) (name : String) (value : Text)
    (d d' : Manager) : Type 0 where
  pub task : TaskDef
  pub variable : TaskVariable
  pub declared : Elem task c.tasks
  pub scoped : in_scope d.completed task ≡ true
  pub owns : find_variable task.variables name ≡ some variable
  pub valid : validate re variable value ≡ true
  pub result : d' ≡ (capture c task name value d).0

module _ (re : Regexp) (c : TaskGroupConfig) (name : String) (call : Params) (d : Manager) where
  set_owned-cases :
      (o : Option (TaskDef × TaskVariable)) (value : Text)
      → o ≡ find_owner (visible_tasks d.completed c.tasks) name
      → let d' = (set_owned re c o name value d).0 in (d' ≡ d) ⊎ Captures re c name value d d'
  unfolding set_owned
  set_owned-cases none value e = inl refl
  set_owned-cases (some (t, v)) value e = elim (Bool-cases (validate re v value)) [
    | inr bad ↦ inl (rw bad)
    | inl good ↦
        let (m, owns) = find_owner_sound (visible_tasks d.completed c.tasks) name t v (sym e) in
        let (m', s) = visible_tasks-Elem d.completed c.tasks t m in
        inr (record {
          task = t;
          variable = v;
          declared = m';
          scoped = s;
          owns = owns;
          valid = good;
          result = rw good;
        })
  ]

  handle_set_variable-set_owned :
      d.config ≡ some c
      → handle_set_variable re name call d
        ≡ set_owned re c
            (find_owner (visible_tasks d.completed c.tasks) name)
            name
            (extract_param call "value")
            d
  unfolding handle_set_variable
  handle_set_variable-set_owned e = ap (λ o. set_with re o name (extract_param call "value") d) e

  pub handle_set_variable-cases :
      d.config ≡ some c
      → let d' = (handle_set_variable re name call d).0 in
        (d' ≡ d) ⊎ Captures re c name (extract_param call "value") d d'
  handle_set_variable-cases e = rw (handle_set_variable-set_owned e) (
      set_owned-cases (find_owner (visible_tasks d.completed c.tasks) name)
        (extract_param call "value") refl)

-- The states that the operations of a loaded manager lead to.
pub data Reach (re : Regexp) (d0 : Manager) : Manager → Type 0 where
  start : Reach re d0 d0
  sets_variable :
      {d : Manager} (name : String) (call : Params)
      → Reach re d0 d
      → Reach re d0 (handle_set_variable re name call d).0
  completes : {d d' : Manager} → Reach re d0 d → complete_current_task d ≡ some d' → Reach re d0 d'
  registers :
      {d : Manager} (t : LlmTool) (f : Params → Text)
      → Reach re d0 d
      → Reach re d0 (register_tool t f d)

module _ (re : Regexp) (c : TaskGroupConfig) where
  handle_set_variable-Moves :
      (name : String) (call : Params) (d : Manager)
      → d.config ≡ some c
      → Moves c d (handle_set_variable re name call d).0
  handle_set_variable-Moves name call d e = elim (handle_set_variable-cases re c name call d e) [
    | inl same ↦ rw same (refl, inl refl)
    | inr k ↦
        rw k.result
          (capture-fields c k.task name (extract_param call "value") d k.declared k.scoped).0
  ]

  complete_current_task-Moves :
      (d : Manager) {d' : Manager}
      → d.config ≡ some c
      → complete_current_task d ≡ some d'
      → Moves c d d'
  unfolding complete_current_task
  complete_current_task-Moves d e h = ground (
    arith,
    complete_first-Moves c d (visible_tasks d.completed c.tasks)
        (λ t m. visible_tasks-Elem d.completed c.tasks t m),
  )

  register_tool-Moves :
      (t : LlmTool) (f : Params → Text) (d : Manager) → Moves c d (register_tool t f d)
  unfolding register_tool
  register_tool-Moves t f d = (refl, inl refl)

  Moves-P :
      (P : List String → Type 0)
      → ((done done' : List String) → P done → Advance c done done' → P done')
      → (d d' : Manager) → d.config ≡ some c
      → P d.completed
      → Moves c d d'
      → (d'.config ≡ some c) × P d'.completed
  Moves-P P keep d d' e p (e', inl same) = (e' ∙ e, rw same p)
  Moves-P P keep d d' e p (e', inr adv) = (e' ∙ e, keep d.completed d'.completed p adv)

  -- To prove a property of the completed tasks of every reachable state, prove it of one more
  -- completed task.
  pub Reach-induction :
      (P : List String → Type 0)
      → ((done done' : List String) → P done → Advance c done done' → P done')
      → {d0 d : Manager} → d0.config ≡ some c
      → P d0.completed
      → Reach re d0 d
      → (d.config ≡ some c) × P d.completed
  Reach-induction P keep e p start = (e, p)
  Reach-induction P keep e p (sets_variable {d} name call r) =
      let (e', p') = Reach-induction P keep e p r in
      Moves-P P keep d (handle_set_variable re name call d).0 e' p'
        (handle_set_variable-Moves name call d e')
  Reach-induction P keep e p (completes {d} {d'} r h) =
      let (e', p') = Reach-induction P keep e p r in
      Moves-P P keep d d' e' p' (complete_current_task-Moves d e' h)
  Reach-induction P keep e p (registers {d} t f r) =
      let (e', p') = Reach-induction P keep e p r in
      Moves-P P keep d (register_tool t f d) e' p' (register_tool-Moves t f d)
