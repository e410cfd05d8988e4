-- ===== src/Runtime/Runner.antt =====
-- `Runner` of core/runner.go. A handler is the number that tells it from the others. A top event is
-- always broadcast, since the interface of external output events asks for no method of its own.
use interact_kit_sdk.Text.{Text}
use interact_kit_sdk.Prelude.{
  ℕ, Bool, true, false, Option, none, some, List, [], ◌∷◌, ◌++◌, map, if◌then◌else◌,
}
use interact_kit_sdk.Events.{critical_error, end_call, Packet, Event, next_service}

pub record Runner : Type 0 where
  pub handlers : List ℕ
  pub started : Bool

pub data RunnerEffect : Type 0 where
  broadcasts : Packet → RunnerEffect
  first_handles : Packet → RunnerEffect
  cleans_up : ℕ → RunnerEffect
  initializes starts : ℕ → RunnerEffect
  cancels closes_channels finishes listens : RunnerEffect

-- the loop of `Start` over the handlers: `none` where one is not initialized
unfoldable pub initialize_all : (ℕ → Bool) → List ℕ → List RunnerEffect × Bool
initialize_all init_ok [] = ([], true)
initialize_all init_ok (i ∷ is) =
    let (later, all_ok) = initialize_all init_ok is in
    if init_ok i then (initializes i ∷ later, all_ok) else (initializes i ∷ [], false)

-- `Start`, with the handlers that can be initialized
unfoldable pub start_runner : (ℕ → Bool) → Runner → Runner × List RunnerEffect
unfolding initialize_all
start_runner init_ok r = elim r.handlers [
  | [] ↦ (r, [])
  | i ∷ is ↦
      let (out, all_ok) = initialize_all init_ok r.handlers in
      (
        record r { started = true },
        out ++ (if all_ok then map starts r.handlers ++ listens ∷ [] else cancels ∷ finishes ∷ []),
      )
]

-- `Stop`, whose test of `Started` and change of it are one step under the mutex
unfoldable pub stop : Runner → Runner × List RunnerEffect
stop r =
    if r.started
    then (
      record r { started = false },
      cancels ∷ (map cleans_up r.handlers ++ closes_channels ∷ finishes ∷ []),
    )
    else (r, [])

-- `Reset`: every handler is reset, and the first error, if there is one, is returned
unfoldable pub reset_runner : (ℕ → Option Text) → List ℕ → Option Text
reset_runner reset [] = none
reset_runner reset (i ∷ is) = elim (reset i) [ none ↦ reset_runner reset is | some e ↦ some e ]

unfoldable pub process_final_output : Event → Runner → Runner × List RunnerEffect
unfolding stop
process_final_output (end_call reason) r = stop r
process_final_output _ r = (r, [])

unfoldable pub process_top_output : Event → Packet → Runner → Runner × List RunnerEffect
unfolding stop
process_top_output (critical_error error) q r = let (r', out) = stop r in (r', broadcasts q ∷ out)
process_top_output _ q r =
    (r, broadcasts q ∷ first_handles (record q { destination = next_service }) ∷ [])

-- a packet from the last handler or for the top, or a call of `Stop`
pub data RunnerInput : Type 0 where
  final_output top_output : Packet → RunnerInput
  calls_stop : RunnerInput

unfoldable pub runner_step : RunnerInput → Runner → Runner × List RunnerEffect
unfolding process_final_output process_top_output stop
runner_step (final_output q) r = process_final_output q.event r
runner_step (top_output q) r = process_top_output q.event q r
runner_step calls_stop r = stop r

unfoldable pub runner_run : List RunnerInput → Runner → Runner × List RunnerEffect
runner_run [] r = (r, [])
runner_run (i ∷ is) r =
    let (r', out) = runner_step i r in let (r'', later) = runner_run is r' in (r'', out ++ later)
