-- ===== src/Services/Cartesia/Rotation.antt =====
-- Each call of services/cartesia/tts/tts.go leaves the contexts that have ended behind.
use interact_kit_sdk.Services.OpenAi.Client.{not_initialized}
use interact_kit_sdk.Services.DeepgramTts.Socket.{refused_dials}
use interact_kit_sdk.Services.Shared.{interrupted, unreachable, Dialled}
use interact_kit_sdk.Services.Cartesia.Contexts.{
  Old-suc, ended_contexts-append, open_contexts-append, idle, ended_contexts, Old, Keeps, IsFresh,
  open_contexts,
}
use interact_kit_sdk.Text.{is_empty, Text}
use interact_kit_sdk.Services.Cartesia.{
  nil_done, nil_error, api_key_required, nil_out, context_done, starts_heartbeat, starts_reader,
  refused_dials, is_empty, not_initialized, rotate, connected, initialize, reconnect, close_conn,
  close_connection, Fault, start_session, cleanup, Dialled, Effect, cleanup_session, reconnected,
  CartesiaTts, on, open_session, cleanup_current, Text, ready_on,
}
use interact_kit_sdk.Prelude.{
  ℕ, ◌≡◌, refl, sym, subst, ◌∙◌, Bool, true, false, not, Option, none, some, List, [], ◌∷◌, ◌++◌,
  if◌then◌else◌,
}

-- what holds in both branches
if_all : {A : Type 0} (P : A → Type 0) (b : Bool) (x y : A) → P x → P y → P (if b then x else y)
if_all P true x y h k = h
if_all P false x y h k = k

pub ready-initialized :
    (b : Bool) (conn session : Option ℕ) (c : ℕ) → ready_on b conn session ≡ on c → b ≡ true
ready-initialized true conn session c e = refl
ready-initialized false conn session c e = cc

module _ (uuid : ℕ → Text) (k : List Text) where
  -- a state whose contexts are those of another
  moved :
      (s t : CartesiaTts)
      → t.drawn ≡ s.drawn
      → t.context ≡ s.context
      → (t.is_initialized ≡ true → s.is_initialized ≡ true)
      → IsFresh uuid k s
      → IsFresh uuid k t
  moved s t drawn context init fresh = record {
    drawn_before = subst (λ n. Old uuid n k) (sym drawn) fresh.drawn_before;
    when_initialized = λ h.
        let (m, c) = fresh.when_initialized (init h) in
        (m, record { last = drawn ∙ c.last; current = context ∙ c.current; older = c.older });
  }

  -- what a function leaves, with no message
  abbrev Moves : CartesiaTts × List Effect → Type 0
  Moves (s, out) = (open_contexts k out ≡ true) × (ended_contexts k out ≡ k) × IsFresh uuid k s

  Moves-Keeps :
      (p : CartesiaTts × List Effect) (o : Option Fault) → Moves p → Keeps uuid k (p.0, p.1, o)
  Moves-Keeps (s, out) o (opens, same, fresh) =
      (opens, subst (λ j. IsFresh uuid j s) (sym same) fresh)

  reconnected-Moves :
      (d : Dialled) (p : CartesiaTts × List Effect) → Moves p → Keeps uuid k (reconnected d p)
  unfolding reconnected
  reconnected-Moves (connected c) (s, out) (opens, same, fresh) =
      Moves-Keeps (record s { conn = some c }, out) none
        (opens, same, moved s (record s { conn = some c }) refl refl (λ h. h) fresh)
  reconnected-Moves unreachable (s, out) h = Moves-Keeps (s, out) (some refused_dials) h
  reconnected-Moves interrupted (s, out) h = Moves-Keeps (s, out) (some context_done) h

  open_session-Moves :
      (session : ℕ) (d : Dialled) (p : CartesiaTts × List Effect)
      → Moves p
      → Keeps uuid k (open_session session d p)
  unfolding open_session open_contexts ended_contexts
  open_session-Moves session (connected c) (s, out) (opens, same, fresh) =
      let next : CartesiaTts = record s {
        conn = some c;
        current_session = some session;
        heartbeat_started = true;
      } in
      let more = starts_reader session ∷ starts_heartbeat ∷ [] in
      Moves-Keeps (next, out ++ more) none
        (
          open_contexts-append k out more opens refl,
          ended_contexts-append k out more ∙ same,
          moved s next refl refl (λ h. h) fresh,
        )
  open_session-Moves session unreachable (s, out) h = Moves-Keeps (s, out) (some refused_dials) h
  open_session-Moves session interrupted (s, out) h = Moves-Keeps (s, out) (some context_done) h

  module _ (s : CartesiaTts) (fresh : IsFresh uuid k s) where
    close_conn-Moves : (conn : Option ℕ) → Moves (close_conn conn s)
    unfolding close_conn open_contexts ended_contexts
    close_conn-Moves none = (refl, refl, fresh)
    close_conn-Moves (some c) =
        (refl, refl, moved s (record s { conn = none }) refl refl (λ h. h) fresh)

    pub reconnect-Keeps : (d : Dialled) → Keeps uuid k (reconnect d s)
    unfolding reconnect close_connection
    reconnect-Keeps d = reconnected-Moves d (close_conn s.conn s) (close_conn-Moves s.conn)

  cleanup_current-Moves :
      (o : Option ℕ) (s : CartesiaTts) → IsFresh uuid k s → Moves (cleanup_current o s)
  unfolding cleanup_current cleanup_session close_connection open_contexts ended_contexts
  cleanup_current-Moves none s fresh = (refl, refl, fresh)
  cleanup_current-Moves (some session) s fresh =
      let marked : CartesiaTts = record s { ended = session ∷ s.ended } in
      let (opens, same, moves) =
        close_conn-Moves marked (moved s marked refl refl (λ h. h) fresh) s.conn in
      (opens, same, moved (close_conn s.conn marked).0 _ refl refl (λ h. h) moves)

  module _ (s : CartesiaTts) (fresh : IsFresh uuid k s) where
    pub cleanup-Keeps : Keeps uuid k (cleanup s)
    unfolding cleanup close_connection
    cleanup-Keeps =
        let over : CartesiaTts = record s { cancelled = true } in
        let (opens, same, moves) =
          close_conn-Moves over (moved s over refl refl (λ h. h) fresh) s.conn in
        if_all (Keeps uuid k) s.is_initialized _ _
          (Moves-Keeps
            (
              record (close_conn s.conn over).0 {
                current_session = none;
                is_initialized = false;
                heartbeat_started = false;
              },
              (close_conn s.conn over).1,
            )
            none (opens, same, moved (close_conn s.conn over).0 _ refl refl (λ h. cc) moves))
          (idle uuid k s fresh none)

    pub start_session-Keeps :
        (o e d : Bool) (session : ℕ) (dialled : Dialled)
        → Keeps uuid k (start_session o e d session dialled s)
    unfolding start_session
    start_session-Keeps o e d session dialled =
        if_all (Keeps uuid k) (not s.is_initialized) _ _
          (idle uuid k s fresh (some not_initialized))
          (if_all (Keeps uuid k) (not o) _ _ (idle uuid k s fresh (some nil_out)) (
            if_all (Keeps uuid k) (not e) _ _ (idle uuid k s fresh (some nil_error)) (
              if_all (Keeps uuid k) (not d) _ _ (idle uuid k s fresh (some nil_done)) (
                open_session-Moves session dialled (cleanup_current s.current_session s)
                  (cleanup_current-Moves s.current_session s fresh)))))

    pub initialize-Keeps : Keeps uuid k (initialize uuid s)
    unfolding initialize open_contexts ended_contexts rotate
    initialize-Keeps = if_all (Keeps uuid k) s.is_initialized _ _ (idle uuid k s fresh none) (
        if_all (Keeps uuid k) (is_empty s.config.api_key) _ _
          (idle uuid k s fresh (some api_key_required))
          (
            refl,
            record {
              drawn_before = Old-suc uuid s.drawn k fresh.drawn_before;
              when_initialized = λ h.
                  (s.drawn, record { last = refl; current = refl; older = fresh.drawn_before });
            },
          ))
