-- ===== src/Llm/Filler.antt =====
-- `fillerState` of handlers/llm/llm_handler.go: the phrase that is prepared while the user speaks.
-- Each operation holds the mutex, so each is one step. The receiver is never nil here, since
-- `NewLLMHandler` always makes one.
use interact_kit_sdk.Prelude.{
  ℕ, ◌+◌, ◌%◌, ◌^◌, Bool, true, false, not, ◌&&◌, ◌||◌, Option, none, some, [], leb, ◌==◌,
  if◌then◌else◌, length,
}
use interact_kit_sdk.Text.{Text, fields, trim_space, is_empty}

pub record FillerState : Type 0 where
  pub enabled : Bool
  pub listening : Bool
  pub current_utterance_id : ℕ
  pub filler_utterance_id : ℕ
  pub filler_requested : Bool
  pub filler_ready : Bool
  pub filler_consumed : Bool
  pub pending_filler : Text
  pub consumed_filler : Text
  pub active_request_token : ℕ
  pub next_request_token : ℕ

unfoldable pub new_filler_state : Bool → FillerState
new_filler_state enabled = record {
  enabled = enabled;
  listening = false;
  current_utterance_id = 0;
  filler_utterance_id = 0;
  filler_requested = false;
  filler_ready = false;
  filler_consumed = false;
  pending_filler = [];
  consumed_filler = [];
  active_request_token = 0;
  next_request_token = 0;
}

-- `resetUtteranceLocked`
unfoldable pub reset_utterance : FillerState → FillerState
reset_utterance f = record f {
  filler_requested = false;
  filler_ready = false;
  filler_consumed = false;
  pending_filler = [];
  consumed_filler = [];
  filler_utterance_id = 0;
  active_request_token = 0;
}

-- what to ask for: the text, the utterance and the token
pub record FillerRequest : Type 0 where
  pub text : Text
  pub utterance_id : ℕ
  pub token : ℕ

-- the part of `onInterim` that starts an utterance
unfoldable pub hear_utterance : FillerState → FillerState
unfolding reset_utterance
hear_utterance f =
    if f.listening
    then f
    else reset_utterance (record f {
      listening = true;
      current_utterance_id = (f.current_utterance_id + 1) % 2 ^ 64;
    })

-- and the part that asks for a filler
unfoldable pub request_filler : Text → FillerState → FillerState × Option FillerRequest
request_filler trimmed f =
    let token = (f.next_request_token + 1) % 2 ^ 64 in
    (
      record f {
        filler_ready = false;
        pending_filler = [];
        filler_requested = true;
        filler_utterance_id = f.current_utterance_id;
        next_request_token = token;
        active_request_token = token;
      },
      some (record { text = trimmed; utterance_id = f.current_utterance_id; token = token }),
    )

unfoldable pub on_interim : Text → FillerState → FillerState × Option FillerRequest
unfolding hear_utterance request_filler
on_interim text f =
    let trimmed = trim_space text in
    let heard = hear_utterance f in
    if not f.enabled || is_empty trimmed
    then (f, none)
    else if leb (length (fields trimmed)) 3 || heard.filler_consumed
    then (heard, none)
    else request_filler trimmed heard

unfoldable pub consume_filler : FillerState → FillerState × Text
consume_filler f =
    if not f.enabled || f.filler_consumed || not f.filler_ready || is_empty f.pending_filler
    then (f, [])
    else (record f { filler_consumed = true; consumed_filler = f.pending_filler }, f.pending_filler)

unfoldable pub get_consumed_filler : FillerState → Text
get_consumed_filler f = if f.enabled then f.consumed_filler else []

unfoldable pub clear_after_response : FillerState → FillerState
clear_after_response f =
    if f.enabled
    then record f {
      listening = false;
      filler_requested = false;
      filler_ready = false;
      filler_consumed = false;
      pending_filler = [];
      consumed_filler = [];
      active_request_token = 0;
      filler_utterance_id = 0;
    }
    else f

-- Is this the request that is waited for?
unfoldable pub is_active : ℕ → ℕ → FillerState → Bool
is_active token utterance f =
    not (token == 0) && token == f.active_request_token && utterance == f.filler_utterance_id

unfoldable pub store_result : ℕ → ℕ → Text → Bool → FillerState → FillerState
unfolding is_active
store_result token utterance filler skip f =
    let trimmed = trim_space filler in
    if not f.enabled || not (is_active token utterance f)
    then f
    else if skip || is_empty trimmed
    then record f { active_request_token = 0; pending_filler = []; filler_ready = false }
    else record f { active_request_token = 0; pending_filler = trimmed; filler_ready = true }

unfoldable pub request_failed : ℕ → ℕ → FillerState → FillerState
unfolding is_active
request_failed token utterance f =
    if not f.enabled || not (is_active token utterance f)
    then f
    else record f { active_request_token = 0; filler_requested = false }

-- One turn of the loop of `waitForFiller`, whose deadline may have passed: a text ends the loop.
unfoldable pub poll_filler : Bool → FillerState → FillerState × Option Text
poll_filler late f =
    if not f.enabled || not f.filler_requested
    then (f, some [])
    else if f.filler_ready && not f.filler_consumed && not (is_empty f.pending_filler)
    then (
      record f { filler_consumed = true; consumed_filler = f.pending_filler },
      some f.pending_filler,
    )
    else (f, if late then some [] else none)
