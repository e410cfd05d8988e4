-- ===== src/Mcp/Sessions.antt =====
-- The sessions of handlers/context/mcp_manager.go, from their opening to their end, and the tools
-- that its connections have.
use interact_kit_sdk.Text.{Text}
use mathlib.Core.List.{Perm, perm_middle}
use mathlib.Core.List.Perm as Permutation
use interact_kit_sdk.Prelude.{
  ℕ, ◌≡◌, refl, sym, ap, subst, ◌∙◌, Option, none, some, List, [], ◌∷◌, ◌++◌, map, append-nil,
  append_assoc,
}
use interact_kit_sdk.Mcp.Manager.{
  Answer, Connection, ServerConfig, Transport, build_transport, close, connect, connect_one,
  connect_with, unreachable, unlisted, listed, with_connection,
}

-- the session that a server opens, where there is a transport to it
unfoldable pub opened_by : Option Transport → Answer → List ℕ
opened_by none answer = []
opened_by (some t) unreachable = []
opened_by (some t) (unlisted session) = session ∷ []
opened_by (some t) (listed session ts) = session ∷ []

unfoldable pub opened : List Text → List (ServerConfig × Answer) → List ℕ
unfolding opened_by build_transport
opened environ [] = []
opened environ ((cfg, answer) ∷ rest) =
    opened_by (build_transport environ cfg) answer ++ opened environ rest

abbrev sessions : List Connection → List ℕ
sessions conns = map (λ c. c.session) conns

sessions-append : (xs ys : List Connection) → sessions (xs ++ ys) ≡ sessions xs ++ sessions ys
sessions-append [] ys = refl
sessions-append (x ∷ xs) ys = ap (λ z. x.session ∷ z) (sessions-append xs ys)

-- What a server opens, and what is closed at once, before the sessions that come later.
connect_with-sessions :
    (cfg : ServerConfig) (t : Option Transport) (answer : Answer) (conns : List Connection)
    (closed rest : List ℕ)
    → let (made, at_once) = connect_with cfg t answer in
      Perm closed (sessions (with_connection made conns) ++ rest)
      → Perm (at_once ++ closed) (sessions conns ++ (opened_by t answer ++ rest))
unfolding connect_with opened_by
connect_with-sessions cfg none answer conns closed rest h = h
connect_with-sessions cfg (some t) unreachable conns closed rest h = h
connect_with-sessions cfg (some t) (unlisted session) conns closed rest h =
    Permutation.trans (Permutation.cons session h)
      (Permutation.symm (perm_middle (sessions conns) rest))
connect_with-sessions cfg (some t) (listed session ts) conns closed rest h =
    subst (λ z. Perm closed z)
      (ap (λ z. z ++ rest) (sessions-append conns _) ∙ append_assoc (sessions conns) _ rest) h

connect-sessions :
    (environ : List Text) (servers : List (ServerConfig × Answer)) (conns : List Connection)
    → let (all, closed) = connect environ servers conns in
      Perm (closed ++ sessions all) (sessions conns ++ opened environ servers)
unfolding connect connect_one opened
connect-sessions environ [] conns =
    subst (λ z. Perm (sessions conns) z) (sym (append-nil (sessions conns))) (Permutation.refl _)
connect-sessions environ ((cfg, answer) ∷ rest) conns =
    let t = build_transport environ cfg in
    let (made, at_once) = connect_with cfg t answer in
    let (all, closed) = connect environ rest (with_connection made conns) in
    subst (λ z. Perm z (sessions conns ++ (opened_by t answer ++ opened environ rest)))
      (sym (append_assoc at_once closed (sessions all)))
      (connect_with-sessions cfg t answer conns (closed ++ sessions all) (opened environ rest)
        (connect-sessions environ rest (with_connection made conns)))

-- A new manager connects to some servers and is closed later: whatever the servers answer, the
-- sessions closed, by `Connect` and by `Close`, are up to their order those that were opened, each
-- as often, and no connection is left.
pub connect-close :
    (environ : List Text) (servers : List (ServerConfig × Answer))
    → let (conns, at_once) = connect environ servers [] in
      let (left, at_end) = close conns in
      Perm (at_once ++ at_end) (opened environ servers) × (left ≡ [])
unfolding close
connect-close environ servers = (connect-sessions environ servers [], refl)
