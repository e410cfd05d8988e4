-- ===== src/Llm/Faults.antt =====
-- An answer for a filler that is skipped.
use interact_kit_sdk.Prelude.{
  ℕ, String, ◌≡◌, Bool, true, none, some, List, [], arith, if◌then◌else◌,
}
use interact_kit_sdk.Text.{Text}
use interact_kit_sdk.Llm.Filler.{is_active, poll_filler, store_result, request_failed, FillerState}
use interact_kit_sdk.Llm.Answers.{parse_filler_response, Json}
use interact_kit_sdk.Llm.Loop.{on_filler_answer}

-- Where an answer is waited for: after one that says to skip the filler, every look at the filler
-- before the deadline goes on waiting, and one after it gives no filler; after an answer that failed,
-- every look ends the wait at once.
pub skipped_filler_waits :
    (t u : ℕ) (answer : List (String × Json)) (filler : Text) (f : FillerState) (late : Bool)
    → f.enabled ≡ true
    → f.filler_requested ≡ true
    → is_active t u f ≡ true
    → parse_filler_response answer ≡ some (filler, true)
    → ((poll_filler late (on_filler_answer t u (some answer) f)).1
        ≡ (if late then some [] else none))
      × ((poll_filler late (on_filler_answer t u none f)).1 ≡ some [])
unfolding on_filler_answer request_failed store_result poll_filler
skipped_filler_waits t u answer filler f late on wanted active parsed =
    (ground (arith, parsed), ground arith)
