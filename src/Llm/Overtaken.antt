-- ===== src/Llm/Overtaken.antt =====
-- A filler whose request has been overtaken is never used.
use interact_kit_sdk.Events.{
  vad_interruption_confirmed, vad_interruption_suspected, llm_variable_confirm_request, Packet,
  Event,
}
use interact_kit_sdk.Llm.Handler.{llm_handle_event, LlmHandler, discard_fillers, llm_dispatch}
use interact_kit_sdk.Llm.Answers.{Json}
use interact_kit_sdk.Llm.Loop.{
  llm_step_alive_lem, takes_end, takes_start, answers_bridge, polls, answers_filler,
  takes_tool_call, takes_message, on_filler_answer, handles, llm_step_alive, LlmInput, llm_run,
  llm_step,
}
use interact_kit_sdk.Prelude.{
  ℕ, ◌+◌, ◌^◌, ◌≤◌, ◌<◌, String, ◌≡◌, refl, ap, ◌∙◌, ◌≢◌, inl, inr, Bool, true, false, ◌||◌, Option,
  some, List, [], ◌∷◌, arith, is_some, Option-cases, length,
}
use interact_kit_sdk.Llm.Filler.{
  is_active, store_result, request_failed, FillerRequest, clear_after_response, FillerState,
}
use interact_kit_sdk.Llm.Tokens.{llm_step-Requests, request_of, llm_step-Draws, Draws}

-- A token that has been given out and is not waited for.
record Overtaken (t : ℕ) (f : FillerState) : Type 0 where
  pub given_out : t ≤ f.next_request_token
  pub real : 0 < t
  pub not_active : f.active_request_token ≢ t

Overtaken-Draws : (t : ℕ) (f f' : FillerState) → Overtaken t f → Draws f f' → Overtaken t f'
Overtaken-Draws t f f' o d = record {
  given_out = ground (arith, o.given_out, d.grows);
  real = o.real;
  not_active = ground (arith, o.given_out, o.real, o.not_active, d.kept_or_new);
}

llm_run-Overtaken :
    (t : ℕ) (is : List LlmInput) (h : LlmHandler)
    → h.filler.next_request_token + length is < 2 ^ 64
    → Overtaken t h.filler
    → Overtaken t (llm_run is h).0.filler
unfolding llm_run
llm_run-Overtaken t [] h small o = o
llm_run-Overtaken t (i ∷ is) h small o =
    let d = llm_step-Draws i h (omega arith) in
    llm_run-Overtaken t is (llm_step i h).0 (omega (arith, d.by_one))
      (Overtaken-Draws t h.filler (llm_step i h).0.filler o d)

-- how far the counter can get, and that it keeps what it gave out
record Counts (n : ℕ) (f f' : FillerState) : Type 0 where
  pub at_least : f.next_request_token ≤ f'.next_request_token
  pub at_most : f'.next_request_token ≤ f.next_request_token + n
  pub same_enabled : f'.enabled ≡ f.enabled

llm_run-Counts :
    (is : List LlmInput) (h : LlmHandler)
    → h.filler.next_request_token + length is < 2 ^ 64
    → Counts (length is) h.filler (llm_run is h).0.filler
unfolding llm_run
llm_run-Counts [] h small = record {
  at_least = omega arith;
  at_most = omega arith;
  same_enabled = refl;
}
llm_run-Counts (i ∷ is) h small =
    let d = llm_step-Draws i h (omega arith) in
    let c = llm_run-Counts is (llm_step i h).0 (omega (arith, d.by_one)) in
    record {
      at_least = omega (arith, d.grows, c.at_least);
      at_most = omega (arith, d.by_one, c.at_most);
      same_enabled = c.same_enabled ∙ d.same_enabled;
    }

-- inputs that drop the fillers of a turn: interruptions, and a variable that is to be confirmed
abbrev pub drops_fillers : LlmInput → Bool
drops_fillers (handles q) = elim q.event [
  | vad_interruption_suspected ↦ true
  | vad_interruption_confirmed ↦ true
  | llm_variable_confirm_request t ↦ true
  | _ ↦ false
]
drops_fillers _ = false

clear-inactive :
    (f : FillerState) → f.enabled ≡ true → (clear_after_response f).active_request_token ≡ 0
unfolding clear_after_response
clear-inactive f on = ground arith

dispatch_drops :
    (e : Event) (q : Packet) (h : LlmHandler)
    → drops_fillers (handles (record q { event = e })) ≡ true
    → h.filler.enabled ≡ true
    → (llm_dispatch e q h).0.filler.active_request_token ≡ 0
unfolding llm_dispatch discard_fillers
dispatch_drops (llm_variable_confirm_request t) q h drops on = clear-inactive h.filler on
dispatch_drops vad_interruption_suspected q h drops on = clear-inactive h.filler on
dispatch_drops vad_interruption_confirmed q h drops on = clear-inactive h.filler on
dispatch_drops _ q h drops on = absurd (cc drops)

step_drops :
    (j : LlmInput) (h : LlmHandler)
    → drops_fillers j ≡ true
    → h.panicked ≡ false
    → h.filler.enabled ≡ true
    → (llm_step j h).0.filler.active_request_token ≡ 0
unfolding llm_step llm_step_alive llm_handle_event
step_drops (handles q) h drops alive on =
    ap (λ x. x.0.filler.active_request_token) (llm_step_alive_lem (handles q) h alive)
    ∙ dispatch_drops q.event q h drops on
step_drops (takes_message m) h drops alive on = absurd (cc drops)
step_drops (takes_tool_call t ps) h drops alive on = absurd (cc drops)
step_drops takes_start h drops alive on = absurd (cc drops)
step_drops takes_end h drops alive on = absurd (cc drops)
step_drops (polls i late) h drops alive on = absurd (cc drops)
step_drops (answers_filler t u a) h drops alive on = absurd (cc drops)
step_drops (answers_bridge t a) h drops alive on = absurd (cc drops)

Overtaken-ignored :
    (u : ℕ) (answer : Option (List (String × Json))) (t : ℕ) (h : LlmHandler)
    → Overtaken t h.filler
    → llm_step (answers_filler t u answer) h ≡ (h, [])
unfolding llm_step llm_step_alive on_filler_answer request_failed store_result is_active
Overtaken-ignored u answer t h o = ground (arith, o.not_active)

overtakes :
    (j : LlmInput) (h : LlmHandler) (t : ℕ)
    → h.filler.next_request_token + 1 < 2 ^ 64
    → t ≤ h.filler.next_request_token
    → 0 < t
    → h.filler.enabled ≡ true
    → h.panicked ≡ false
    → (is_some (request_of (llm_step j h).1) || drops_fillers j) ≡ true
    → Overtaken t (llm_step j h).0.filler
overtakes j h t small given real on alive over =
    let d = llm_step-Draws j h small in
    elim (Option-cases (request_of (llm_step j h).1)) [
      | inr (r, e) ↦
          let a = llm_step-Requests j h r small e in
          record {
            given_out = omega (arith, d.grows);
            real = real;
            not_active = λ x. omega (arith, x, a.active, a.next);
          }
      | inl e ↦
          let dropped : drops_fillers j ≡ true = ground (arith, over, e) in
          record {
            given_out = omega (arith, d.grows);
            real = real;
            not_active = λ x. omega (arith, x, step_drops j h dropped alive on);
          }
    ]

-- Where a step has asked for a filler, and after further inputs a step has asked for another, or
-- has dropped the fillers of the turn (an interruption is suspected or confirmed, or a variable is
-- to be confirmed) while the process lives: after any later inputs, any answer for the first request
-- leaves the handler as it is and makes it do nothing. The counter of tokens, which has 64 bits, must
-- not reach its end on the way.
pub overtaken_answer_ignored :
    (i j : LlmInput) (mid later : List LlmInput) (h : LlmHandler) (r : FillerRequest) (u : ℕ)
    (answer : Option (List (String × Json)))
    → h.filler.next_request_token + length mid + length later + 2 < 2 ^ 64
    → request_of (llm_step i h).1 ≡ some r
    → (llm_run mid (llm_step i h).0).0.panicked ≡ false
    → (is_some (request_of (llm_step j (llm_run mid (llm_step i h).0).0).1) || drops_fillers j)
      ≡ true
    → let h' = (llm_run later (llm_step j (llm_run mid (llm_step i h).0).0).0).0 in
      llm_step (answers_filler r.token u answer) h' ≡ (h', [])
overtaken_answer_ignored i j mid later h r u answer small asked alive over =
    let h1 = (llm_step i h).0 in
    let h2 = (llm_run mid h1).0 in
    let h3 = (llm_step j h2).0 in
    let a = llm_step-Requests i h r (omega arith) asked in
    let c = llm_run-Counts mid h1 (omega (arith, a.next, a.drawn)) in
    let o =
      overtakes j h2 r.token (omega (arith, a.drawn, a.next, c.at_most))
        (omega (arith, a.drawn, c.at_least)) (omega (arith, a.next))
        (c.same_enabled ∙ (llm_step-Draws i h (omega arith)).same_enabled ∙ a.enabled) alive over in
    let d = llm_step-Draws j h2 (omega (arith, a.drawn, a.next, c.at_most)) in
    Overtaken-ignored u answer r.token (llm_run later h3).0
      (llm_run-Overtaken r.token later h3 (omega (arith, a.drawn, a.next, c.at_most, d.by_one)) o)
