-- ===== src/Tests/ActivityTests.antt =====
-- Runs of the activity control handler: handlers/activity_control/activity_control_handler.go.
use interact_kit_sdk.Prelude.{ℕ, ◌+◌, ◌*◌, ◌/◌, ◌≡◌, refl, true, List, [], ◌∷◌, ◌++◌}
use interact_kit_sdk.Audio.Convert.{pcm}
use interact_kit_sdk.Events.{tts_output, next_service, Packet}
use interact_kit_sdk.Activity.{
  Seconds, Handler, new_handler, Input, arrives, fires, resumes, step, run,
}
use interact_kit_sdk.Activity.Invariant.{audio, Inv, new-Inv, run-Inv, run-audio}
use interact_kit_sdk.Activity.Stale.{suspicion, confirmation}

-- whole milliseconds in place of floats
abbrev millis : Seconds
millis = record { Float = ℕ; zero_s = 0; add = λ a b. a + b; quotient = λ n rate. n * 1000 / rate }

abbrev chunk : ℕ → Packet
chunk n = record {
  event = tts_output (record {
    samples = n ∷ 0 ∷ [];
    sample_rate = 8000;
    channels = 1;
    format = pcm;
    timestamp = n;
  });
  destination = next_service;
  relayer = "TTSHandler";
}

-- two chunks are cached while suspended, and sent when the timer fires
abbrev false_alarm : List Input
false_alarm =
    arrives 1 (chunk 1)
    ∷ arrives 2 suspicion
    ∷ arrives 3 (chunk 2)
    ∷ arrives 4 (chunk 3)
    ∷ fires
    ∷ resumes
    ∷ arrives 5 (chunk 4)
    ∷ []

false_alarm_runs :
    (run millis false_alarm (new_handler millis)).1
    ≡ chunk 1 ∷ suspicion ∷ chunk 2 ∷ chunk 3 ∷ chunk 4 ∷ []
unfolding run step
false_alarm_runs = refl

run-Inv_example : Inv millis (run millis false_alarm (new_handler millis)).0
run-Inv_example = run-Inv millis false_alarm (new_handler millis) (new-Inv millis)

run-audio_example :
    audio (run millis false_alarm (new_handler millis)).1
      ++ (run millis false_alarm (new_handler millis)).0.cached_chunks
    ≡ audio (chunk 1 ∷ suspicion ∷ chunk 2 ∷ chunk 3 ∷ chunk 4 ∷ [])
run-audio_example =
    run-audio millis false_alarm (new_handler millis) (new-Inv millis)
      (refl, (refl, (refl, (refl, (tt, (tt, (refl, tt)))))))

-- the timer of the first suspicion has fired, and its signal is still there
abbrev stale : Handler millis
stale = record (new_handler millis) { resume = true }

stale_reached :
    (run millis (arrives 1 suspicion ∷ fires ∷ arrives 2 confirmation ∷ []) (new_handler millis)).0
    ≡ stale
unfolding run step
stale_reached = refl
