-- ===== src/Task/Loading.antt =====
-- What `LoadTaskGroup` leaves behind.
use interact_kit_sdk.Conversation.{or_empty}
use interact_kit_sdk.Task.Prompt.{build_task_instructions}
use interact_kit_sdk.Prelude.{
  ℕ, zero, suc, ◌≤◌, String, ◌≡◌, refl, ap, ◌∙◌, inl, inr, true, false, some, List, [], ◌∷◌, ◌++◌,
  arith, Bool-cases, length, get_elem?, take, drop, All,
}
use interact_kit_sdk.Events.{system, LlmContext, LlmMessage, is_system}
use interact_kit_sdk.Task.Config.{visible_tasks, TaskGroupConfig, TaskVariable, TaskDef}
use interact_kit_sdk.Task.Tools.{build_tools, set_tool_id}
use interact_kit_sdk.Task.Manager.{rebuild_tools, Manager}
use interact_kit_sdk.Task.Load.{
  start_group, load_task_group, install, insert_message, insertion_index, register_variable,
  register_variables, register_tasks,
}

get-insert_message :
    (i : ℕ) (m : LlmMessage) (ms : List LlmMessage)
    → i ≤ length ms
    → get_elem? (insert_message i m ms) i ≡ some m
unfolding insert_message
get-insert_message zero m ms h = refl
get-insert_message (suc i) m [] h = absurd (omega arith)
get-insert_message (suc i) m (x ∷ ms) h = get-insert_message i m ms (omega arith)

take-insert_message :
    (i : ℕ) (m : LlmMessage) (ms : List LlmMessage)
    → i ≤ length ms
    → take i (insert_message i m ms) ≡ take i ms
unfolding insert_message
take-insert_message zero m ms h = refl
take-insert_message (suc i) m [] h = absurd (omega arith)
take-insert_message (suc i) m (x ∷ ms) h = ap (◌∷◌ x) (take-insert_message i m ms (omega arith))

drop-insert_message :
    (i : ℕ) (m : LlmMessage) (ms : List LlmMessage)
    → i ≤ length ms
    → drop (suc i) (insert_message i m ms) ≡ drop i ms
unfolding insert_message
drop-insert_message zero m ms h = refl
drop-insert_message (suc i) m [] h = absurd (omega arith)
drop-insert_message (suc i) m (x ∷ ms) h = drop-insert_message i m ms (omega arith)

insertion_index-le-length : (ms : List LlmMessage) → insertion_index ms ≤ length ms
unfolding insertion_index
insertion_index-le-length [] = omega arith
insertion_index-le-length (m ∷ ms) = ground (arith, insertion_index-le-length ms)

abbrev IsSystemMessage : LlmMessage → Type 0
IsSystemMessage m = is_system m.role ≡ true

take-insertion_index : (ms : List LlmMessage) → All IsSystemMessage (take (insertion_index ms) ms)
unfolding insertion_index
take-insertion_index [] = tt
take-insertion_index (m ∷ ms) = elim (Bool-cases (is_system m.role)) [
  | inl e ↦ rw e (e, take-insertion_index ms)
  | inr e ↦ rw e tt
]

-- no system message comes first
abbrev pub IsPastSystem : List LlmMessage → Type 0
IsPastSystem [] = Unit
IsPastSystem (m ∷ ms) = is_system m.role ≡ false

drop-insertion_index : (ms : List LlmMessage) → IsPastSystem (drop (insertion_index ms) ms)
unfolding insertion_index
drop-insertion_index [] = tt
drop-insertion_index (m ∷ ms) = elim (Bool-cases (is_system m.role)) [
  | inl e ↦ rw e (drop-insertion_index ms)
  | inr e ↦ rw e e
]

-- `d'` differs from `d` in the tables of handlers at most
pub record SameBut (d d' : Manager) : Type 0 where
  pub same_config : d'.config ≡ d.config
  pub same_completed : d'.completed ≡ d.completed
  pub same_collected : d'.collected ≡ d.collected
  pub same_index : d'.instr_index ≡ d.instr_index
  pub same_context : d'.context ≡ d.context

register_variables-SameBut :
    (vs : List TaskVariable) (r : List String) (d : Manager)
    → SameBut d (register_variables vs r d).1
unfolding register_variables
register_variables-SameBut [] r d = ground arith
register_variables-SameBut (v ∷ vs) r d = ground (
  arith,
  register_variables-SameBut vs r d,
  register_variables-SameBut vs (set_tool_id v.name ∷ r) (register_variable v d),
)

register_tasks-SameBut :
    (ts : List TaskDef) (r : List String) (d : Manager) → SameBut d (register_tasks ts r d)
unfolding register_tasks
register_tasks-SameBut [] r d = ground arith
register_tasks-SameBut (t ∷ ts) r d =
    let (r1, d1) = register_variables t.variables r d in
    ground (arith, register_variables-SameBut t.variables r d, register_tasks-SameBut ts r1 d1)

-- the state of a manager whose group has just been loaded into a conversation
pub record Fresh (c : TaskGroupConfig) (old : List LlmMessage) (d : Manager) : Type 0 where
  pub fresh_config : d.config ≡ some c
  pub fresh_completed : d.completed ≡ []
  pub fresh_collected : d.collected ≡ []
  pub ctx : LlmContext
  pub fresh_context : d.context ≡ some ctx
  pub instruction_there :
      get_elem? ctx.messages d.instr_index
      ≡ some
          (record { role = system; message = build_task_instructions (visible_tasks [] c.tasks) })
  pub old_kept : take d.instr_index ctx.messages ++ drop (suc d.instr_index) ctx.messages ≡ old
  pub after_system : All IsSystemMessage (take d.instr_index ctx.messages)
  pub past_system : IsPastSystem (drop (suc d.instr_index) ctx.messages)

take-drop : (i : ℕ) (ms : List LlmMessage) → take i ms ++ drop i ms ≡ ms
take-drop zero ms = refl
take-drop (suc i) [] = refl
take-drop (suc i) (m ∷ ms) = ap (◌∷◌ m) (take-drop i ms)

install-Fresh :
    (c : TaskGroupConfig) (ctx : LlmContext) (d : Manager) → Fresh c ctx.messages (install c ctx d)
unfolding install
install-Fresh c ctx d =
    let ms = ctx.messages in
    let i = insertion_index ms in
    let text = build_task_instructions (visible_tasks [] c.tasks) in
    let m : LlmMessage = record { role = system; message = text } in
    let le = insertion_index-le-length ms in
    record {
      fresh_config = refl;
      fresh_completed = refl;
      fresh_collected = refl;
      ctx = record ctx { messages = insert_message i m ms };
      fresh_context = refl;
      instruction_there = get-insert_message i m ms le;
      old_kept = rw (take-insert_message i m ms le, drop-insert_message i m ms le) (take-drop i ms);
      after_system = rw (take-insert_message i m ms le) (take-insertion_index ms);
      past_system = rw (drop-insert_message i m ms le) (drop-insertion_index ms);
    }

-- a state with the same group, values and messages is as fresh
Fresh-same :
    (c : TaskGroupConfig) (old : List LlmMessage) (d d' : Manager) (ctx' : LlmContext)
    → (f : Fresh c old d) → d'.config ≡ d.config
    → d'.completed ≡ d.completed
    → d'.collected ≡ d.collected
    → d'.instr_index ≡ d.instr_index
    → d'.context ≡ some ctx'
    → ctx'.messages ≡ f.ctx.messages
    → Fresh c old d'
Fresh-same c old d d' ctx' f e1 e2 e3 e4 e5 e6 = record {
  fresh_config = e1 ∙ f.fresh_config;
  fresh_completed = e2 ∙ f.fresh_completed;
  fresh_collected = e3 ∙ f.fresh_collected;
  ctx = ctx';
  fresh_context = e5;
  instruction_there = rw (e4, e6) f.instruction_there;
  old_kept = rw (e4, e6) f.old_kept;
  after_system = rw (e4, e6) f.after_system;
  past_system = rw (e4, e6) f.past_system;
}

rebuild_tools-fields :
    (c : TaskGroupConfig) (ts : List TaskDef) (d : Manager) (ctx : LlmContext)
    → d.context ≡ some ctx
    → let d' = rebuild_tools c ts d in
      let tools = build_tools d.permanent_tools d.tool_registry c d.collected ts in
      (d'.config ≡ d.config)
      × (d'.completed ≡ d.completed)
      × (d'.collected ≡ d.collected)
      × (d'.instr_index ≡ d.instr_index)
      × (d'.context ≡ some (record ctx { tools = tools }))
unfolding rebuild_tools
rebuild_tools-fields c ts d ctx e = ground arith

rebuild_tools-Fresh :
    (c : TaskGroupConfig) (old : List LlmMessage) (ts : List TaskDef) (d : Manager)
    → Fresh c old d
    → Fresh c old (rebuild_tools c ts d)
rebuild_tools-Fresh c old ts d f =
    let (e1, e2, e3, e4, e5) = rebuild_tools-fields c ts d f.ctx f.fresh_context in
    Fresh-same c old d (rebuild_tools c ts d) _ f e1 e2 e3 e4 e5 refl

start_group-Fresh :
    (c : TaskGroupConfig) (d : Manager) → Fresh c (or_empty d.context).messages (start_group c d)
unfolding start_group
start_group-Fresh c d =
    let visible = visible_tasks [] c.tasks in
    let d1 = install c (or_empty d.context) d in
    let d2 = rebuild_tools c visible d1 in
    let old = (or_empty d.context).messages in
    let f = rebuild_tools-Fresh c old visible d1 (install-Fresh c (or_empty d.context) d) in
    let s = register_tasks-SameBut c.tasks [] d2 in
    Fresh-same c old d2 (start_group c d) f.ctx f s.same_config s.same_completed s.same_collected
      s.same_index (s.same_context ∙ f.fresh_context) refl

pub load_task_group-some :
    (c : TaskGroupConfig) (d : Manager) {d' : Manager}
    → load_task_group c d ≡ some d'
    → start_group c d ≡ d'
unfolding load_task_group
load_task_group-some c d h = ground arith

-- A task group that is loaded is in force, with nothing completed and nothing collected; the message
-- at the index that the manager keeps holds the instructions of the tasks visible at first; without
-- it the messages are those from before; all messages before it are system messages, and the next
-- one after it, if any, is none: it stands right after the last of the leading system messages.
pub load_task_group-Fresh :
    (c : TaskGroupConfig) (d : Manager) {d' : Manager}
    → load_task_group c d ≡ some d'
    → Fresh c (or_empty d.context).messages d'
load_task_group-Fresh c d h = rw⁻¹ (load_task_group-some c d h) (start_group-Fresh c d)
