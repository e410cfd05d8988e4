-- ===== src/Task/Progress.antt =====
-- `CompleteCurrentTask`, called again and again, and the queries of a manager.
use interact_kit_sdk.Prelude.{
  ℕ, zero, suc, ◌+◌, ◌≤◌, ◌<◌, String, ◌≡◌, refl, sym, ap, ◌∙◌, ◌⊎◌, inl, inr, true, false, Option,
  none, some, List, [], ◌∷◌, arith, eq_iff, if◌then◌else◌, Elem, length,
}
use interact_kit_sdk.Task.Config.{TaskDef, TaskGroupConfig, mem, in_scope, visible_tasks}
use interact_kit_sdk.Task.Manager.{
  current_task_id, complete_with, Manager, complete_first, complete_current_task, is_complete,
}
use interact_kit_sdk.Task.Steps.{visible_tasks-Elem}
use interact_kit_sdk.Task.Effects.{on_task_complete-fields}

-- the tasks that are not completed
pub left : List String → List TaskDef → ℕ
left done [] = 0
left done (t ∷ ts) = (if mem t.id done then 0 else 1) + left done ts

left-le-length : (done : List String) (ts : List TaskDef) → left done ts ≤ length ts
unfolding left
left-le-length done [] = omega arith
left-le-length done (t ∷ ts) = ground (arith, left-le-length done ts)

-- one more completed task leaves no more open
left-cons-le :
    (k : String) (done : List String) (ts : List TaskDef) → left (k ∷ done) ts ≤ left done ts
unfolding left mem
left-cons-le k done [] = omega arith
left-cons-le k done (t ∷ ts) = ground (arith, left-cons-le k done ts)

left-cons-lt :
    (done : List String) (ts : List TaskDef) (t : TaskDef)
    → Elem t ts
    → mem t.id done ≡ false
    → left (t.id ∷ done) ts < left done ts
unfolding left mem
left-cons-lt done [] t m n = elim m [ ]
left-cons-lt done (u ∷ us) t (inl e) n = ground (arith, left-cons-le t.id done us, eq_iff t.id u.id)
left-cons-lt done (u ∷ us) t (inr m) n = ground (arith, left-cons-lt done us t m n)

in_scope-open : (done : List String) (t : TaskDef) → in_scope done t ≡ true → mem t.id done ≡ false
unfolding in_scope
in_scope-open done t s = ground arith

abbrev and_then : Option Manager → (Manager → Option Manager) → Option Manager
and_then none f = none
and_then (some d) f = f d

-- `n` calls of `CompleteCurrentTask`; none where one of them panics
unfoldable pub complete_times : ℕ → Manager → Option Manager
complete_times zero d = some d
complete_times (suc n) d = and_then (complete_current_task d) (complete_times n)

complete_first-left :
    (c : TaskGroupConfig) (d : Manager) (ts : List TaskDef)
    → ts ≡ visible_tasks d.completed c.tasks
    → let d' = complete_first c ts d in
      (d'.config ≡ d.config)
      × ((visible_tasks d'.completed c.tasks ≡ [])
          ⊎ (left d'.completed c.tasks < left d.completed c.tasks))
unfolding complete_first
complete_first-left c d [] v = (refl, inl (sym v))
complete_first-left c d (t ∷ ts) v =
    let f = on_task_complete-fields c t.id d in
    let (m, s) = visible_tasks-Elem d.completed c.tasks t (rw (← v) (inl refl)) in
    (
      f.same_config,
      inr (
          rw f.same_completed
            (left-cons-lt d.completed c.tasks t m (in_scope-open d.completed t s))),
    )

complete_current_task-loaded :
    (c : TaskGroupConfig) (d : Manager)
    → d.config ≡ some c
    → complete_current_task d ≡ some (complete_first c (visible_tasks d.completed c.tasks) d)
unfolding complete_current_task
complete_current_task-loaded c d e = ap (λ o. complete_with o d) e

is_complete-loaded :
    (c : TaskGroupConfig) (d : Manager)
    → d.config ≡ some c
    → visible_tasks d.completed c.tasks ≡ []
    → is_complete d ≡ true
unfolding is_complete
is_complete-loaded c d e v = ground arith

-- with nothing in scope the calls change nothing
complete_times-idle :
    (n : ℕ) (c : TaskGroupConfig) (d : Manager)
    → d.config ≡ some c
    → visible_tasks d.completed c.tasks ≡ []
    → complete_times n d ≡ some d
unfolding complete_times complete_first
complete_times-idle zero c d e v = refl
complete_times-idle (suc n) c d e v =
    ground (arith, complete_current_task-loaded c d e, complete_times-idle n c d e v)

visible_tasks_of_left :
    (done : List String) (ts : List TaskDef) → left done ts ≤ 0 → visible_tasks done ts ≡ []
unfolding left visible_tasks in_scope
visible_tasks_of_left done [] h = refl
visible_tasks_of_left done (t ∷ ts) h = ground (arith, visible_tasks_of_left done ts)

complete_times-end :
    (n : ℕ) (c : TaskGroupConfig) (d : Manager)
    → d.config ≡ some c
    → left d.completed c.tasks ≤ n
    → (d' : Manager) × (complete_times n d ≡ some d') × (is_complete d' ≡ true)
unfolding complete_times
complete_times-end zero c d e b =
    (d, refl, is_complete-loaded c d e (visible_tasks_of_left d.completed c.tasks b))
complete_times-end (suc n) c d e b =
    let d1 = complete_first c (visible_tasks d.completed c.tasks) d in
    let (e1, progress) = complete_first-left c d (visible_tasks d.completed c.tasks) refl in
    elim progress [
      | inl v ↦ (
        d1,
        rw (complete_current_task-loaded c d e) (complete_times-idle n c d1 (e1 ∙ e) v),
        is_complete-loaded c d1 (e1 ∙ e) v,
      )
      | inr less ↦
          let (d', q, r) = complete_times-end n c d1 (e1 ∙ e) (omega arith) in
          (d', ap (λ o. and_then o (complete_times n)) (complete_current_task-loaded c d e) ∙ q, r)
    ]

-- A loaded task group ends: after as many calls of `CompleteCurrentTask` as it declares tasks, none
-- of which panics, no visible task is left and `IsComplete` says so.
pub complete_times-is_complete :
    (c : TaskGroupConfig) (d : Manager)
    → d.config ≡ some c
    → (d' : Manager) × (complete_times (length c.tasks) d ≡ some d') × (is_complete d' ≡ true)
complete_times-is_complete c d e =
    complete_times-end (length c.tasks) c d e (left-le-length d.completed c.tasks)

-- Without a task group the two queries differ: `IsComplete` answers no, where `CurrentTaskID` and
-- `CompleteCurrentTask` panic, in every such state.
pub no_group_panics :
    (d : Manager)
    → d.config ≡ none
    → (is_complete d ≡ false) × (current_task_id d ≡ none) × (complete_current_task d ≡ none)
unfolding is_complete current_task_id complete_current_task
no_group_panics d e = ground arith
