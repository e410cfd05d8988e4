-- ===== src/Task/Handlers.antt =====
-- The handlers that `LoadTaskGroup` registers.
use interact_kit_sdk.Prelude.{
  String, ◌≡◌, subst, inl, inr, Bool, true, false, none, some, List, [], ◌∷◌, arith, str_eq,
  eq_refl, if◌then◌else◌, Bool-cases, Elem,
}
use interact_kit_sdk.Prelude.Dict.{lookup, lookup-insert}
use interact_kit_sdk.Task.Config.{TaskVariable, TaskDef, TaskGroupConfig, mem}
use interact_kit_sdk.Task.Tools.{set_tool_id}
use interact_kit_sdk.Task.Manager.{Manager, sets, external}
use interact_kit_sdk.Task.Load.{
  start_group, register_variable, register_variables, register_tasks, load_task_group,
}
use interact_kit_sdk.Task.Loading.{load_task_group-some}

-- the handler of a tool sets a variable that has this tool
unfoldable pub handles : String → Manager → Bool
handles id d = elim (lookup id d.tool_handlers) [
  | none ↦ false
  | some (external f) ↦ false
  | some (sets name) ↦ str_eq (set_tool_id name) id
]

register_variable-handles :
    (v : TaskVariable) (id : String) (d : Manager)
    → handles id (register_variable v d)
      ≡ (if str_eq (set_tool_id v.name) id then true else handles id d)
unfolding handles register_variable
register_variable-handles v id d =
    ground (arith, lookup-insert (set_tool_id v.name) id (sets v.name) d.tool_handlers)

-- every tool in the list has its handler
abbrev Registered : List String → Manager → Type 0
Registered r d = (id : String) → mem id r ≡ true → handles id d ≡ true

register_variable-Registered :
    (v : TaskVariable) (r : List String) (d : Manager)
    → Registered r d
    → Registered (set_tool_id v.name ∷ r) (register_variable v d)
unfolding mem
register_variable-Registered v r d reg id m =
    ground (arith, register_variable-handles v id d, reg id)

register_variables-Registered :
    (vs : List TaskVariable) (r : List String) (d : Manager)
    → Registered r d
    → let (r', d') = register_variables vs r d in Registered r' d'
unfolding register_variables
register_variables-Registered [] r d reg = reg
register_variables-Registered (v ∷ vs) r d reg = elim (Bool-cases (mem (set_tool_id v.name) r)) [
  | inl e ↦ rw e (register_variables-Registered vs r d reg)
  | inr e ↦ rw e (
      register_variables-Registered vs (set_tool_id v.name ∷ r) (register_variable v d)
        (register_variable-Registered v r d reg))
]

register_variables-mem_old :
    (vs : List TaskVariable) (r : List String) (d : Manager) (id : String)
    → mem id r ≡ true
    → mem id (register_variables vs r d).0 ≡ true
unfolding register_variables
register_variables-mem_old [] r d id m = m
register_variables-mem_old (v ∷ vs) r d id m = elim (Bool-cases (mem (set_tool_id v.name) r)) [
  | inl e ↦ rw e (register_variables-mem_old vs r d id m)
  | inr e ↦ rw e (
      register_variables-mem_old vs (set_tool_id v.name ∷ r) (register_variable v d) id
        (unfold mem in rw m (ground arith)))
]

register_variables-mem :
    (v : TaskVariable) (vs : List TaskVariable) (r : List String) (d : Manager)
    → Elem v vs
    → mem (set_tool_id v.name) (register_variables vs r d).0 ≡ true
unfolding register_variables
register_variables-mem v [] r d m = absurd m
register_variables-mem v (w ∷ vs) r d m = elim (Bool-cases (mem (set_tool_id w.name) r)) [
  | inl e ↦ rw e (elim m [
    | inl same ↦ register_variables-mem_old vs r d (set_tool_id v.name) (rw same e)
    | inr other ↦ register_variables-mem v vs r d other
  ])
  | inr e ↦ rw e (elim m [
    | inl same ↦
        register_variables-mem_old vs (set_tool_id w.name ∷ r) (register_variable w d)
          (set_tool_id v.name) (unfold mem in rw same (rw eq_refl (ground arith)))
    | inr other ↦ register_variables-mem v vs (set_tool_id w.name ∷ r) (register_variable w d) other
  ])
]

register_tasks-old :
    (ts : List TaskDef) (r : List String) (d : Manager) (id : String)
    → Registered r d
    → mem id r ≡ true
    → handles id (register_tasks ts r d) ≡ true
unfolding register_tasks
register_tasks-old [] r d id reg m = reg id m
register_tasks-old (t ∷ ts) r d id reg m =
    let (r1, d1) = register_variables t.variables r d in
    register_tasks-old ts r1 d1 id (register_variables-Registered t.variables r d reg)
      (register_variables-mem_old t.variables r d id m)

register_tasks-handles :
    (t : TaskDef) (v : TaskVariable) (ts : List TaskDef) (r : List String) (d : Manager)
    → Registered r d
    → Elem t ts
    → Elem v t.variables
    → handles (set_tool_id v.name) (register_tasks ts r d) ≡ true
unfolding register_tasks
register_tasks-handles t v [] r d reg i j = absurd i
register_tasks-handles t v (u ∷ ts) r d reg i j =
    let (r1, d1) = register_variables u.variables r d in
    let reg1 = register_variables-Registered u.variables r d reg in
    elim i [
      | inl same ↦
          register_tasks-old ts r1 d1 (set_tool_id v.name) reg1
            (register_variables-mem v u.variables r d (subst (λ x. Elem v x.variables) same j))
      | inr other ↦ register_tasks-handles t v ts r1 d1 reg1 other j
    ]

-- When a task group is loaded, each variable of each declared task has its set tool answered by a
-- handler that sets a variable with this tool, whatever handlers there were before.
pub load_task_group-handles :
    (c : TaskGroupConfig) (d : Manager) (t : TaskDef) (v : TaskVariable) {d' : Manager}
    → load_task_group c d ≡ some d'
    → Elem t c.tasks
    → Elem v t.variables
    → handles (set_tool_id v.name) d' ≡ true
load_task_group-handles c d t v h i j =
    rw⁻¹ (load_task_group-some c d h) (
      unfold start_group mem in register_tasks-handles t v c.tasks [] _ (λ id m. absurd (cc m)) i j)
