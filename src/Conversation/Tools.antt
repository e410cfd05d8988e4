-- ===== src/Conversation/Tools.antt =====
-- The tools of a context that is set.
use interact_kit_sdk.Conversation.Assistant.{continue_listening}
use interact_kit_sdk.Prelude.{
  String, ◌≡◌, refl, Bool, true, false, not, ◌&&◌, ◌||◌, some, List, [], ◌∷◌, ◌++◌, append-nil,
  append_assoc, arith, str_eq, eq_refl, if◌then◌else◌,
}
use interact_kit_sdk.Events.{LlmContext, LlmTool}
use interact_kit_sdk.Conversation.Manager.{
  end_call_tool, end_call_id, continue_listening_tool, has_tool, ensure_tool, LlmContextManager,
  set_context,
}

has_tool-append :
    (id : String) (xs ys : List LlmTool)
    → has_tool id (xs ++ ys) ≡ (has_tool id xs || has_tool id ys)
unfolding has_tool
has_tool-append id [] ys = refl
has_tool-append id (x ∷ xs) ys = ground (arith, has_tool-append id xs ys)

-- the tools that are added to those of a context
abbrev added : LlmTool → LlmTool → Bool → List LlmTool → List LlmTool
added l e allow ts =
    (if allow && not (has_tool l.tool_id ts) then l ∷ [] else [])
    ++ (if has_tool e.tool_id ts then [] else e ∷ [])

abbrev pub added_tools : Bool → List LlmTool → List LlmTool
added_tools = added continue_listening_tool end_call_tool

-- two tools, the first of them only if it is allowed
record Both (l e : LlmTool) (allow : Bool) (ts ts' : List LlmTool) : Type 0 where
  pub after : ts' ≡ ts ++ added l e allow ts
  pub has_second : has_tool e.tool_id ts' ≡ true
  pub has_first : has_tool l.tool_id ts' ≡ (allow || has_tool l.tool_id ts)

ensure_tool-Both :
    (l e : LlmTool) (allow : Bool) (ts : List LlmTool)
    → str_eq l.tool_id e.tool_id ≡ false
    → str_eq e.tool_id l.tool_id ≡ false
    → Both l e allow ts (ensure_tool e (if allow then ensure_tool l ts else ts))
unfolding ensure_tool has_tool
ensure_tool-Both l e allow ts n n' = ground (
  arith,
  n,
  n',
  eq_refl e.tool_id,
  eq_refl l.tool_id,
  append-nil ts,
  append_assoc ts (l ∷ []) (e ∷ []),
  has_tool-append e.tool_id ts (l ∷ []),
  has_tool-append l.tool_id ts (l ∷ []),
  has_tool-append e.tool_id ts (e ∷ []),
  has_tool-append l.tool_id ts (e ∷ []),
  has_tool-append e.tool_id (ts ++ l ∷ []) (e ∷ []),
  has_tool-append l.tool_id (ts ++ l ∷ []) (e ∷ []),
)

-- A context that is set gets the tools of the context given and, after them, the tool to listen on if
-- it is allowed and missing, and the tool to end the call if it is missing; so the tool to end the
-- call is there, and the tool to listen on is there if it is allowed or was there.
pub set_context_tools :
    (c : LlmContext) (m : LlmContextManager)
    → (c' : LlmContext) × ((set_context c m).context ≡ some c')
      × (c'.tools ≡ c.tools ++ added_tools m.allow_continue_listening c.tools)
      × (has_tool end_call_id c'.tools ≡ true)
      × (has_tool continue_listening c'.tools
          ≡ (m.allow_continue_listening || has_tool continue_listening c.tools))
unfolding set_context
set_context_tools c m =
    let b =
      ensure_tool-Both continue_listening_tool end_call_tool m.allow_continue_listening c.tools refl
        refl in
    (_, refl, b.after, b.has_second, b.has_first)
