-- ===== src/Mcp/Owned.antt =====
-- Which tool of which server a call of handlers/context/mcp_manager.go reaches.
use interact_kit_sdk.Text.{Text}
use text.Mathlib.TextEquality.{eq_iff}
use text.Mathlib.TextPositions.{eq_refl}
use interact_kit_sdk.Prelude.{
  ℕ, String, ◌≡◌, refl, ap, subst, ◌∙◌, inl, inr, Option, none, some, List, [], ◌∷◌, ◌++◌, str_eq,
  Bool-cases, Option-cases, All, All-append, All-weaken,
}
use interact_kit_sdk.Prelude.Dict.{insert, lookup}
use interact_kit_sdk.Events.{LlmTool, Params}
use interact_kit_sdk.Mcp.{Text, make_tool_id, convert_mcp_tool}
use interact_kit_sdk.Mcp.Manager.{
  Answer, Called, Connection, McpTool, ServerConfig, Transport, build_transport, call_mcp_result,
  call_mcp_tool, connect, connect_one, connect_with, convert_all, discover, list_tools, unreachable,
  unlisted, listed, with_connection,
}

-- a tool that stands under the id that its name and the prefix make
abbrev IsKeyed : String → String × McpTool → Type 0
IsKeyed prefix (id, t) = make_tool_id prefix t.tool_name ≡ id

abbrev AreKeyed : Connection → Type 0
AreKeyed c = All (IsKeyed c.prefix) c.tools

insert-IsKeyed :
    (prefix id : String) (t : McpTool) (found : List (String × McpTool))
    → make_tool_id prefix t.tool_name ≡ id
    → All (IsKeyed prefix) found
    → All (IsKeyed prefix) (insert id t found)
unfolding insert
insert-IsKeyed prefix id t [] k h = (k, tt)
insert-IsKeyed prefix id t ((first, old) ∷ rest) k (h, hs) = elim (Bool-cases (str_eq first id)) [
  | inl same ↦ rw same (k, hs)
  | inr differs ↦ rw differs (h, insert-IsKeyed prefix id t rest k hs)
]

discover-IsKeyed :
    (prefix : String) (ts : List McpTool) (found : List (String × McpTool))
    → All (IsKeyed prefix) found
    → All (IsKeyed prefix) (discover prefix ts found)
unfolding discover
discover-IsKeyed prefix [] found h = h
discover-IsKeyed prefix (t ∷ ts) found h =
    discover-IsKeyed prefix ts _ (insert-IsKeyed prefix _ t found refl h)

connect_with-AreKeyed :
    (cfg : ServerConfig) (t : Option Transport) (answer : Answer) (conns : List Connection)
    → All AreKeyed conns
    → All AreKeyed (with_connection (connect_with cfg t answer).0 conns)
unfolding connect_with
connect_with-AreKeyed cfg none answer conns h = h
connect_with-AreKeyed cfg (some t) unreachable conns h = h
connect_with-AreKeyed cfg (some t) (unlisted session) conns h = h
connect_with-AreKeyed cfg (some t) (listed session ts) conns h =
    All-append AreKeyed conns _ h (discover-IsKeyed cfg.tool_prefix ts [] tt, tt)

connect-AreKeyed :
    (environ : List Text) (servers : List (ServerConfig × Answer)) (conns : List Connection)
    → All AreKeyed conns
    → All AreKeyed (connect environ servers conns).0
unfolding connect connect_one
connect-AreKeyed environ [] conns h = h
connect-AreKeyed environ ((cfg, answer) ∷ rest) conns h =
    connect-AreKeyed environ rest _
      (connect_with-AreKeyed cfg (build_transport environ cfg) answer conns h)

lookup-IsKeyed :
    (prefix id : String) (t : McpTool) (tools : List (String × McpTool))
    → All (IsKeyed prefix) tools
    → lookup id tools ≡ some t
    → make_tool_id prefix t.tool_name ≡ id
unfolding lookup
lookup-IsKeyed prefix id t [] h e = cc
lookup-IsKeyed prefix id t ((first, u) ∷ rest) (h, hs) e = elim (Bool-cases (str_eq first id)) [
  | inl same ↦
      let found : u ≡ t = cc (e, same) in
      subst (λ z. make_tool_id prefix z.tool_name ≡ id) found (h ∙ (eq_iff first id).0 same)
  | inr differs ↦ lookup-IsKeyed prefix id t rest hs (cc (e, differs))
]

-- an id that stands in a table of tools
abbrev HasId : List (String × McpTool) → LlmTool → Type 0
HasId tools tool = (t : McpTool) × (lookup tool.tool_id tools ≡ some t)

HasId-cons :
    (entry : String × McpTool) (rest : List (String × McpTool)) (tool : LlmTool)
    → HasId rest tool
    → HasId (entry ∷ rest) tool
unfolding lookup
HasId-cons (first, u) rest tool (t, e) = elim (Bool-cases (str_eq first tool.tool_id)) [
  | inl same ↦ (u, rw same refl)
  | inr differs ↦ (t, rw differs e)
]

convert_all-HasId : (tools : List (String × McpTool)) → All (HasId tools) (convert_all tools)
unfolding convert_all convert_mcp_tool lookup
convert_all-HasId [] = tt
convert_all-HasId ((id, t) ∷ rest) = (
  (t, rw (eq_refl id) refl),
  All-weaken (HasId rest) _ (convert_all rest) (HasId-cons (id, t) rest) (convert_all-HasId rest),
)

-- Of the connections, the first that has the id in its table has a tool there whose name, with the
-- prefix of that connection, makes the id; and whatever the servers answer, a call of the id is that
-- of this tool, by its own name, on the session of that connection.
pub record Reaches (conns : List Connection) (tool : LlmTool) : Type 0 where
  pub before : List Connection
  pub owner : Connection
  pub after : List Connection
  pub owned : McpTool
  pub connections : conns ≡ before ++ owner ∷ after
  pub first : All (λ d. lookup tool.tool_id d.tools ≡ none) before
  pub found : lookup tool.tool_id owner.tools ≡ some owned
  pub made : make_tool_id owner.prefix owned.tool_name ≡ tool.tool_id
  pub called :
      (calls : ℕ → String → Params → Called) (params : Params)
      → call_mcp_tool calls tool.tool_id params conns
        ≡ call_mcp_result owner.server owned.tool_name (calls owner.session owned.tool_name params)

Reaches-first :
    (c : Connection) (cs : List Connection) (tool : LlmTool)
    → AreKeyed c
    → HasId c.tools tool
    → Reaches (c ∷ cs) tool
unfolding call_mcp_tool
Reaches-first c cs tool k (t, e) = record {
  before = [];
  owner = c;
  after = cs;
  owned = t;
  connections = refl;
  first = tt;
  found = e;
  made = lookup-IsKeyed c.prefix tool.tool_id t c.tools k e;
  called = λ calls params. rw e refl;
}

Reaches-later :
    (c : Connection) (cs : List Connection) (tool : LlmTool)
    → AreKeyed c
    → Reaches cs tool
    → Reaches (c ∷ cs) tool
unfolding call_mcp_tool
Reaches-later c cs tool k r = elim (Option-cases (lookup tool.tool_id c.tools)) [
  | inr (u, e) ↦ Reaches-first c cs tool k (u, e)
  | inl e ↦ record {
    before = c ∷ r.before;
    owner = r.owner;
    after = r.after;
    owned = r.owned;
    connections = ap (◌∷◌ c) r.connections;
    first = (e, r.first);
    found = r.found;
    made = r.made;
    called = λ calls params. rw e (r.called calls params);
  }
]

list_tools-Reaches :
    (conns : List Connection) → All AreKeyed conns → All (Reaches conns) (list_tools conns)
unfolding list_tools
list_tools-Reaches [] h = tt
list_tools-Reaches (c ∷ cs) (k, ks) =
    All-append (Reaches (c ∷ cs)) (convert_all c.tools) _
      (All-weaken (HasId c.tools) _ (convert_all c.tools) (λ tool. Reaches-first c cs tool k)
        (convert_all-HasId c.tools))
      (All-weaken (Reaches cs) _ (list_tools cs) (λ tool. Reaches-later c cs tool k)
        (list_tools-Reaches cs ks))

-- A new manager connects to some servers, whatever they answer: each tool that `Tools` lists stands
-- in the table of a connection, under the id that its name makes with the prefix of that
-- connection; and a call of the id asks, on the session of the first connection that has it, for
-- the tool by its own name.
pub connect-Reaches :
    (environ : List Text) (servers : List (ServerConfig × Answer))
    → let (conns, at_once) = connect environ servers [] in All (Reaches conns) (list_tools conns)
connect-Reaches environ servers = list_tools-Reaches _ (connect-AreKeyed environ servers [] tt)
