-- ===== src/Runtime/Stops.antt =====
-- How the runner stops.
use interact_kit_sdk.Runtime.Base.{fatal_run, BaseHandler}
use interact_kit_sdk.Runtime.Backups.{fatal_run_uses_backups, all_initialized, sent_after}
use interact_kit_sdk.Text.{Text}
use interact_kit_sdk.Prelude.{
  ℕ, zero, suc, ◌+◌, ◌≡◌, refl, ap, subst, ◌∙◌, Bool, true, false, not, ◌&&◌, ◌||◌, List, [], ◌∷◌,
  ◌++◌, map, append-nil, arith, ltb, if◌then◌else◌, length,
}
use interact_kit_sdk.Events.{
  new_event_packet, next_service, Packet, critical_error, end_call, Event,
}
use interact_kit_sdk.Runtime.Runner.{
  first_handles, closes_channels, broadcasts, runner_run, stop, process_top_output, runner_step,
  process_final_output, calls_stop, top_output, finishes, cleans_up, final_output, Runner,
  RunnerEffect, RunnerInput,
}

-- the handlers that are cleaned up
unfoldable pub cleaned : List RunnerEffect → List ℕ
cleaned [] = []
cleaned (cleans_up i ∷ out) = i ∷ cleaned out
cleaned (_ ∷ out) = cleaned out

-- how often the end is signalled
unfoldable pub finished : List RunnerEffect → ℕ
finished [] = 0
finished (finishes ∷ out) = finished out + 1
finished (_ ∷ out) = finished out

abbrev is_critical : Event → Bool
is_critical (critical_error e) = true
is_critical _ = false

abbrev is_end_call : Event → Bool
is_end_call (end_call reason) = true
is_end_call _ = false

-- inputs that stop the runner: a critical error at the top, the end of the call at the last handler,
-- and a call of `Stop`
abbrev pub stops_runner : RunnerInput → Bool
stops_runner (final_output q) = is_end_call q.event
stops_runner (top_output q) = is_critical q.event
stops_runner calls_stop = true

abbrev pub any_stops : List RunnerInput → Bool
any_stops [] = false
any_stops (i ∷ is) = stops_runner i || any_stops is

cleaned-append : (xs ys : List RunnerEffect) → cleaned (xs ++ ys) ≡ cleaned xs ++ cleaned ys
unfolding cleaned
cleaned-append [] ys = refl
cleaned-append (cleans_up i ∷ xs) ys = ap (◌∷◌ i) (cleaned-append xs ys)
cleaned-append (_ ∷ xs) ys = cleaned-append xs ys

finished-append : (xs ys : List RunnerEffect) → finished (xs ++ ys) ≡ finished xs + finished ys
unfolding finished
finished-append [] ys = omega arith
finished-append (finishes ∷ xs) ys = omega (arith, finished-append xs ys)
finished-append (_ ∷ xs) ys = finished-append xs ys

cleaned-map : (is : List ℕ) → cleaned (map cleans_up is) ≡ is
unfolding cleaned
cleaned-map [] = refl
cleaned-map (i ∷ is) = ap (◌∷◌ i) (cleaned-map is)

finished-map : (is : List ℕ) → finished (map cleans_up is) ≡ 0
unfolding finished
finished-map [] = refl
finished-map (i ∷ is) = finished-map is

-- what a runner does over inputs, if one of them stops it
record Stops (stops : Bool) (r r' : Runner) (out : List RunnerEffect) : Type 0 where
  pub same_handlers : r'.handlers ≡ r.handlers
  pub now_started : r'.started ≡ (r.started && not stops)
  pub cleans : cleaned out ≡ (if r.started && stops then r.handlers else [])
  pub ends : finished out ≡ (if r.started && stops then 1 else 0)

stop-Stops : (r : Runner) → Stops true r (stop r).0 (stop r).1
unfolding stop cleaned finished
stop-Stops r = ground (
  arith,
  cleaned-append (map cleans_up r.handlers) (closes_channels ∷ finishes ∷ []),
  finished-append (map cleans_up r.handlers) (closes_channels ∷ finishes ∷ []),
  cleaned-map r.handlers,
  finished-map r.handlers,
  append-nil r.handlers,
)

idle-Stops :
    (r : Runner) (out : List RunnerEffect)
    → cleaned out ≡ []
    → finished out ≡ 0
    → Stops false r r out
idle-Stops r out c f = ground (arith, c, f)

broadcast-Stops : (r : Runner) (q : Packet) → Stops true r (stop r).0 (broadcasts q ∷ (stop r).1)
unfolding cleaned finished
broadcast-Stops r q =
    let a = stop-Stops r in
    record {
      same_handlers = a.same_handlers;
      now_started = a.now_started;
      cleans = a.cleans;
      ends = a.ends;
    }

final-Stops :
    (e : Event) (r : Runner)
    → Stops (is_end_call e) r (process_final_output e r).0 (process_final_output e r).1
unfolding process_final_output cleaned finished
final-Stops (end_call reason) r = stop-Stops r
final-Stops _ r = idle-Stops r [] refl refl

top-Stops :
    (e : Event) (q : Packet) (r : Runner)
    → Stops (is_critical e) r (process_top_output e q r).0 (process_top_output e q r).1
unfolding process_top_output cleaned finished
top-Stops (critical_error error) q r = broadcast-Stops r q
top-Stops _ q r =
    idle-Stops r (broadcasts q ∷ first_handles (record q { destination = next_service }) ∷ []) refl
      refl

step-Stops :
    (i : RunnerInput) (r : Runner)
    → Stops (stops_runner i) r (runner_step i r).0 (runner_step i r).1
unfolding runner_step
step-Stops (final_output q) r = final-Stops q.event r
step-Stops (top_output q) r = top-Stops q.event q r
step-Stops calls_stop r = stop-Stops r

run-Stops :
    (is : List RunnerInput) (r : Runner)
    → Stops (any_stops is) r (runner_run is r).0 (runner_run is r).1
unfolding runner_run cleaned finished
run-Stops [] r = ground arith
run-Stops (i ∷ is) r =
    let (r', out) = runner_step i r in
    let later = (runner_run is r').1 in
    ground (
      arith,
      step-Stops i r,
      run-Stops is r',
      cleaned-append out later,
      finished-append out later,
      append-nil r.handlers,
    )

-- Over any packets and calls of `Stop` after a runner was started: if a critical error has come for
-- the top, or the end of the call from the last handler, or a call of `Stop`, then each handler was
-- cleaned up exactly once, in order, the end was signalled once, and the runner is stopped; and
-- otherwise no handler was cleaned up, no end was signalled, and the runner is still started.
pub runner_stops_once :
    (is : List RunnerInput) (r : Runner)
    → r.started ≡ true
    → let (r', out) = runner_run is r in
      (r'.started ≡ not (any_stops is))
      × (cleaned out ≡ (if any_stops is then r.handlers else []))
      × (finished out ≡ (if any_stops is then 1 else 0))
runner_stops_once is r s =
    let a = run-Stops is r in
    (
      subst (λ b. (runner_run is r).0.started ≡ (b && not (any_stops is))) s a.now_started,
      subst (λ b. cleaned (runner_run is r).1 ≡ (if b && any_stops is then r.handlers else [])) s
          a.cleans,
      subst (λ b. finished (runner_run is r).1 ≡ (if b && any_stops is then 1 else 0)) s a.ends,
    )

-- packets of handlers for the top, as the runner gets them
abbrev pub top_outputs : List Packet → List RunnerInput
top_outputs [] = []
top_outputs (q ∷ qs) = top_output q ∷ top_outputs qs

sent_after-stops :
    (es : List Text) (n : ℕ) → any_stops (top_outputs (sent_after es n)) ≡ ltb n (length es)
unfolding new_event_packet
sent_after-stops [] n = ground arith
sent_after-stops (e ∷ es) zero = ground arith
sent_after-stops (e ∷ es) (suc n) = ground (arith, sent_after-stops es n)

-- Where a handler's loop of fatal errors runs, each of its backup services can be initialized, and
-- the runner is started and gets what the loop sends: it cleans up every handler once, in order, if
-- there were more fatal errors than backups, and otherwise none.
pub exhausted_backups_stop :
    (es : List Text) (h : BaseHandler) (r : Runner)
    → h.watching ≡ true
    → r.started ≡ true
    → cleaned (runner_run (top_outputs (fatal_run (all_initialized es) h).1) r).1
      ≡ (if ltb (length h.backup_services) (length es) then r.handlers else [])
exhausted_backups_stop es h r w s =
    let n = length h.backup_services in
    ap (λ out. cleaned (runner_run (top_outputs out) r).1) (fatal_run_uses_backups es h w).2
    ∙ (runner_stops_once (top_outputs (sent_after es n)) r s).1
    ∙ ap (λ b. if b then r.handlers else []) (sent_after-stops es n)
