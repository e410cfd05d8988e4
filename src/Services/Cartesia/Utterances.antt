-- ===== src/Services/Cartesia/Utterances.antt =====
-- No message of services/cartesia/tts/tts.go goes to a context that has ended.
use interact_kit_sdk.Services.Cartesia.Rotation.{
  reconnect-Keeps, ready-initialized, start_session-Keeps, cleanup-Keeps, initialize-Keeps,
}
use interact_kit_sdk.Text.Laws.{text_eq-eq}
use interact_kit_sdk.Services.Cartesia.Contexts.{
  cleans_up, initializes, reconnects, resets, finishes, buffers, rotated, idle, starts, Keeps,
  ended_contexts, open_contexts-append, Old-suc, act, open_contexts, IsFresh, Action, Old, acts,
  lists,
}
use interact_kit_sdk.Text.{text_eq, Text}
use interact_kit_sdk.Services.Cartesia.{
  write_failed, empty_text, on, refused, Ready, ready, buffer_text, build_request, rotate,
  buffer_on, reset_on, flush_on, CartesiaConfig, CartesiaTts, new_tts, Text, flush, reset,
}
use interact_kit_sdk.Prelude.{
  ℕ, ◌≡◌, refl, sym, subst, ◌∙◌, inl, inr, Bool, true, false, some, List, [], ◌∷◌, arith,
  Bool-cases,
}

module _ (uuid : ℕ → Text) (distinct : (i j : ℕ) → uuid i ≡ uuid j → i ≡ j) where
  unlisted : (m : ℕ) (k : List Text) → Old uuid m k → lists (uuid m) k ≡ false
  unfolding lists
  unlisted m [] h = refl
  unlisted m (t ∷ k) ((j, below, e), h) = elim (Bool-cases (text_eq t (uuid m))) [
    | inr other ↦ rw other (unlisted m k h)
    | inl same ↦
        let twice : j ≡ m = distinct j m (sym e ∙ text_eq-eq t (uuid m) same) in
        absurd (omega arith)
  ]

  module _ (k : List Text) (s : CartesiaTts) (fresh : IsFresh uuid k s) where
    -- the context of an initialized service has not ended
    open_context : s.is_initialized ≡ true → lists s.context k ≡ false
    open_context h =
        let (m, c) = fresh.when_initialized h in
        subst (λ t. lists t k ≡ false) (sym c.current) (unlisted m k c.older)

    -- the contexts when that of an initialized service ends as well
    ended-Old : s.is_initialized ≡ true → Old uuid s.drawn (s.context ∷ k)
    ended-Old h =
        let (m, c) = fresh.when_initialized h in
        ((m, rw c.last (omega arith), c.current), fresh.drawn_before)

    rotated_after : s.is_initialized ≡ true → IsFresh uuid (s.context ∷ k) (rotate uuid s)
    unfolding rotate
    rotated_after h = record {
      drawn_before = Old-suc uuid s.drawn (s.context ∷ k) (ended-Old h);
      when_initialized =
          λ _. (s.drawn, record { last = refl; current = refl; older = ended-Old h });
    }

    buffer_on-Keeps :
        (written : Bool) (t : Text) (r : Ready)
        → ready s ≡ r
        → Keeps uuid k (buffer_on written t r s)
    unfolding buffer_on build_request open_contexts ended_contexts ready
    buffer_on-Keeps written t (refused fault) e = idle uuid k s fresh (some fault)
    buffer_on-Keeps written [] (on c) e = idle uuid k s fresh (some empty_text)
    buffer_on-Keeps false (x ∷ xs) (on c) e = idle uuid k s fresh (some write_failed)
    buffer_on-Keeps true (x ∷ xs) (on c) e =
        let init = ready-initialized s.is_initialized s.conn s.current_session c e in
        (rw (open_context init) refl, fresh)

    flush_on-Keeps :
        (written : Bool) (r : Ready) → ready s ≡ r → Keeps uuid k (flush_on uuid written r s)
    unfolding flush_on build_request open_contexts ended_contexts ready
    flush_on-Keeps written (refused fault) e = idle uuid k s fresh (some fault)
    flush_on-Keeps false (on c) e = idle uuid k s fresh (some write_failed)
    flush_on-Keeps true (on c) e =
        let init = ready-initialized s.is_initialized s.conn s.current_session c e in
        (rw (open_context init) refl, rotated_after init)

    reset_on-Keeps :
        (written : Bool) (r : Ready) → ready s ≡ r → Keeps uuid k (reset_on uuid written r s)
    unfolding reset_on open_contexts ended_contexts ready
    reset_on-Keeps written (refused fault) e = idle uuid k s fresh (some fault)
    reset_on-Keeps false (on c) e = (refl, rotated uuid k s fresh fresh.drawn_before)
    reset_on-Keeps true (on c) e =
        let init = ready-initialized s.is_initialized s.conn s.current_session c e in
        (rw (open_context init) refl, rotated_after init)

    act-Keeps : (a : Action) → Keeps uuid k (act uuid a s)
    unfolding act buffer_text flush reset
    act-Keeps initializes = initialize-Keeps uuid k s fresh
    act-Keeps cleans_up = cleanup-Keeps uuid k s fresh
    act-Keeps (starts o e d session dialled) =
        start_session-Keeps uuid k s fresh o e d session dialled
    act-Keeps (buffers written t) = buffer_on-Keeps written t (ready s) refl
    act-Keeps (finishes written) = flush_on-Keeps written (ready s) refl
    act-Keeps (resets written) = reset_on-Keeps written (ready s) refl
    act-Keeps (reconnects dialled) = reconnect-Keeps uuid k s fresh dialled

  acts-open_contexts :
      (actions : List Action) (k : List Text) (s : CartesiaTts)
      → IsFresh uuid k s
      → open_contexts k (acts uuid actions s).1 ≡ true
  unfolding acts
  acts-open_contexts [] k s fresh = unfold open_contexts in refl
  acts-open_contexts (a ∷ actions) k s fresh =
      let (opens, next) = act-Keeps k s fresh a in
      let out = (act uuid a s).1 in
      open_contexts-append k out (acts uuid actions (act uuid a s).0).1 opens
        (acts-open_contexts actions (ended_contexts k out) (act uuid a s).0 next)

  -- Where the UUIDs drawn are distinct: along any sequence of the calls of a new service and of its
  -- reconnections, whatever the outcomes of the dials and the writes, every message goes to a
  -- context that no request that flushes and no cancel message has ended before.
  pub acts-ended_never_used :
      (config : CartesiaConfig) (actions : List Action)
      → open_contexts [] (acts uuid actions (new_tts config)).1 ≡ true
  unfolding new_tts
  acts-ended_never_used config actions =
      acts-open_contexts actions [] (new_tts config)
        (record { drawn_before = tt; when_initialized = λ h. cc })
