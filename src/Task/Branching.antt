-- ===== src/Task/Branching.antt =====
-- The branches and the sequences of tasks that TASKS.md describes.
use interact_kit_sdk.Prelude.{
  String, ◌≡◌, refl, sym, ◌∙◌, ◌≢◌, ◌⊎◌, inl, inr, true, false, some, List, [], ◌∷◌, arith, str_eq,
  eq_iff, eq_refl, Bool-cases, str_ne, Elem,
}
use interact_kit_sdk.Task.Config.{TaskDef, TaskGroupConfig, Regexp, mem, in_scope}
use interact_kit_sdk.Task.Manager.{Manager}
use interact_kit_sdk.Task.Steps.{Advance, finish, Reach, Reach-induction}

-- the identifiers of the tasks are unique, as task_group.go asks for
abbrev pub UniqueIds : TaskGroupConfig → Type 0
UniqueIds c = (s t : TaskDef) → Elem s c.tasks → Elem t c.tasks → s.id ≡ t.id → s ≡ t

mem-cons_self : (k : String) (ks : List String) → mem k (k ∷ ks) ≡ true
unfolding mem
mem-cons_self k ks = ground (arith, eq_refl k)

mem-cons_ne : (j k : String) (ks : List String) → j ≢ k → mem k (j ∷ ks) ≡ mem k ks
unfolding mem
mem-cons_ne j k ks h = ground (arith, str_ne j k h)

-- the identifier of the task just finished is the one asked for, or it changes no answer
mem-cons : (j k : String) (ks : List String) → (j ≡ k) ⊎ (mem k (j ∷ ks) ≡ mem k ks)
mem-cons j k ks = elim (Bool-cases (str_eq j k)) [
  | inl e ↦ inl ((eq_iff j k).0 e)
  | inr n ↦ inr (unfold mem in rw n)
]

-- two declared tasks, each of which disappears once the other completes
pub record IsBranch (c : TaskGroupConfig) (a b : TaskDef) : Type 0 where
  pub a_declared : Elem a c.tasks
  pub b_declared : Elem b c.tasks
  pub a_disappears : a.disappear_after ≡ b.id
  pub b_disappears : b.disappear_after ≡ a.id
  pub a_named : a.id ≢ ""
  pub b_named : b.id ≢ ""
  pub distinct : a.id ≢ b.id

in_scope-disappear :
    (done : List String) (t : TaskDef) (k : String)
    → in_scope done t ≡ true
    → t.disappear_after ≡ k
    → k ≢ ""
    → mem k done ≡ false
unfolding in_scope
in_scope-disappear done t k s e ne = ground (arith, str_ne k "" ne)

in_scope-visible_after :
    (done : List String) (t : TaskDef)
    → in_scope done t ≡ true
    → (t.visible_after ≡ "") ⊎ (mem t.visible_after done ≡ true)
unfolding in_scope
in_scope-visible_after done t s = ground (arith, eq_iff t.visible_after "")

abbrev NotBoth : TaskDef → TaskDef → List String → Type 0
NotBoth a b done = (mem a.id done ≡ false) ⊎ (mem b.id done ≡ false)

-- finishing one task of a branch leaves the other open for good
finish_branch :
    (done : List String) (t x y : TaskDef)
    → t ≡ x
    → in_scope done t ≡ true
    → x.disappear_after ≡ y.id
    → y.id ≢ ""
    → x.id ≢ y.id
    → mem y.id (t.id ∷ done) ≡ false
finish_branch done t x y e s dis named distinct =
    let not_done = in_scope-disappear done x y.id (rw (← e) s) dis named in
    rw (e, mem-cons_ne x.id y.id done distinct) not_done

NotBoth-Advance :
    (c : TaskGroupConfig) (a b : TaskDef)
    → UniqueIds c
    → IsBranch c a b
    → (done done' : List String) → NotBoth a b done
    → Advance c done done'
    → NotBoth a b done'
NotBoth-Advance c a b u x done done' n (finish t m s e) = elim (mem-cons t.id a.id done) [
  | inl ea ↦ inr (
      rw e
        (finish_branch done t a b (u t a m x.a_declared ea) s x.a_disappears x.b_named x.distinct))
  | inr ka ↦ elim (mem-cons t.id b.id done) [
    | inl eb ↦ inl (
        rw e (
          finish_branch done t b a (u t b m x.b_declared eb) s x.b_disappears x.a_named
            (λ q. x.distinct (sym q))))
    | inr kb ↦ ground arith
  ]
]

-- Of two tasks that disappear after one another, in a group with unique identifiers, no state that
-- the operations reach from one with no completed task has completed both.
pub branch_exclusive :
    (re : Regexp) (c : TaskGroupConfig) (a b : TaskDef) {d0 d : Manager}
    → UniqueIds c
    → IsBranch c a b
    → d0.config ≡ some c
    → d0.completed ≡ []
    → Reach re d0 d
    → (mem a.id d.completed ≡ false) ⊎ (mem b.id d.completed ≡ false)
branch_exclusive re c a b u x e none_done r =
    (Reach-induction re c (NotBoth a b) (NotBoth-Advance c a b u x) e
      (rw none_done (inl (unfold mem in refl))) r).1

-- each completed task has its predecessor completed
abbrev AfterPredecessor : TaskDef → List String → Type 0
AfterPredecessor t done =
    mem t.id done ≡ true → (t.visible_after ≡ "") ⊎ (mem t.visible_after done ≡ true)

mem-cons_of_mem : (j k : String) (ks : List String) → mem k ks ≡ true → mem k (j ∷ ks) ≡ true
unfolding mem
mem-cons_of_mem j k ks h = ground arith

AfterPredecessor-Advance :
    (c : TaskGroupConfig) (t : TaskDef)
    → UniqueIds c
    → Elem t c.tasks
    → (done done' : List String) → AfterPredecessor t done
    → Advance c done done'
    → AfterPredecessor t done'
AfterPredecessor-Advance c t u declared done done' p (finish s m scoped e) h =
    rw e (go (mem-cons s.id t.id done))
  where
    grown :
        (t.visible_after ≡ "") ⊎ (mem t.visible_after done ≡ true)
        → (t.visible_after ≡ "") ⊎ (mem t.visible_after (s.id ∷ done) ≡ true)
    grown (inl q) = inl q
    grown (inr q) = inr (mem-cons_of_mem s.id t.visible_after done q)

    go :
        (s.id ≡ t.id) ⊎ (mem t.id (s.id ∷ done) ≡ mem t.id done)
        → (t.visible_after ≡ "") ⊎ (mem t.visible_after (s.id ∷ done) ≡ true)
    go (inl same) =
        let q : s ≡ t = u s t m declared same in
        grown (in_scope-visible_after done t (rw q at scoped))
    go (inr old) = grown (p (sym old ∙ rw e at h))

-- Tasks complete in the declared order: in every state reached from one with no completed task, a
-- completed task has no predecessor, or its predecessor is completed too.
pub completed_after_predecessor :
    (re : Regexp) (c : TaskGroupConfig) (t : TaskDef) {d0 d : Manager}
    → UniqueIds c
    → Elem t c.tasks
    → d0.config ≡ some c
    → d0.completed ≡ []
    → Reach re d0 d
    → mem t.id d.completed ≡ true
    → (t.visible_after ≡ "") ⊎ (mem t.visible_after d.completed ≡ true)
completed_after_predecessor re c t u declared e none_done r =
    (Reach-induction re c (AfterPredecessor t) (AfterPredecessor-Advance c t u declared) e
      (rw none_done (λ h. absurd (unfold mem in cc h))) r).1
