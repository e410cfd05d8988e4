-- ===== src/Services/OpenAi/Client.antt =====
-- The state of services/openai/llm/llm.go: its client, its streams and its context, with
-- `Initialize`, `Cleanup`, `Reset`, the register of streams, and the beginning of `RunCompletion`.
-- A stream and a context are numbers, the identities of the objects.
use interact_kit_sdk.Text.{is_empty, Text}
use interact_kit_sdk.Prelude.{
  ℕ, suc, Bool, true, false, not, ◌||◌, List, [], ◌∷◌, map, ◌==◌, if◌then◌else◌, length,
}

-- `OpenAILLMService`. A key of `activeStreams` is the number after the address of the service, which
-- is the same in all keys. `contexts` counts the contexts made, of which the last is `ctx`, and
-- `has_cancel` says that there is a function to cancel it.
pub record Client : Type 0 where
  pub api_key : Text
  pub has_client : Bool
  pub active_streams : List (ℕ × ℕ)
  pub contexts : ℕ
  pub cancelled : List ℕ
  pub has_cancel : Bool
  pub is_initialized : Bool

-- `NewOpenAILLMService`
unfoldable pub new_client : Text → Client
new_client key = record {
  api_key = key;
  has_client = false;
  active_streams = [];
  contexts = 0;
  cancelled = [];
  has_cancel = false;
  is_initialized = false;
}

-- `context.WithCancel`: a context that is not cancelled
abbrev pub fresh_context : Client → Client
fresh_context s = record s { contexts = suc s.contexts; has_cancel = true }

-- `Initialize`, and whether it returns without an error
unfoldable pub initialize : Client → Client × Bool
initialize s =
    if is_empty s.api_key
    then (s, false)
    else (record (fresh_context s) { has_client = true; is_initialized = true }, true)

-- `stopAllStreams`: the state, and the streams that are closed
unfoldable pub stop_all_streams : Client → Client × List ℕ
stop_all_streams s =
    (record s { active_streams = [] }, map (λ (id, stream). stream) s.active_streams)

-- the call of `cancel`, where there is one
abbrev pub cancel_context : Client → Client
cancel_context s = if s.has_cancel then record s { cancelled = s.contexts ∷ s.cancelled } else s

-- `Cleanup`
unfoldable pub cleanup : Client → Client × List ℕ
unfolding stop_all_streams
cleanup s =
    let (stopped, closed) = stop_all_streams s in
    (
      record (cancel_context stopped) {
        has_cancel = false;
        has_client = false;
        is_initialized = false;
      },
      closed,
    )

-- `Reset`
unfoldable pub reset : Client → Client × List ℕ
unfolding stop_all_streams
reset s =
    let (stopped, closed) = stop_all_streams s in
    (
      record (fresh_context (cancel_context stopped)) { has_client = true; active_streams = [] },
      closed,
    )

-- `generateStreamID`
unfoldable pub generate_stream_id : Client → ℕ
generate_stream_id s = length s.active_streams

unfoldable pub set_stream : ℕ → ℕ → List (ℕ × ℕ) → List (ℕ × ℕ)
set_stream id stream [] = (id, stream) ∷ []
set_stream id stream ((first, old) ∷ rest) =
    let later = set_stream id stream rest in
    if first == id then (id, stream) ∷ rest else (first, old) ∷ later

-- `registerStream`
unfoldable pub register_stream : ℕ → ℕ → Client → Client
unfolding set_stream
register_stream id stream s = record s { active_streams = set_stream id stream s.active_streams }

unfoldable pub drop_stream : ℕ → List (ℕ × ℕ) → List (ℕ × ℕ)
drop_stream id [] = []
drop_stream id ((first, stream) ∷ rest) =
    let later = drop_stream id rest in if first == id then later else (first, stream) ∷ later

-- `unregisterStream`
unfoldable pub unregister_stream : ℕ → Client → Client
unfolding drop_stream
unregister_stream id s = record s { active_streams = drop_stream id s.active_streams }

-- Is a context done?
unfoldable pub is_done : ℕ → List ℕ → Bool
is_done c [] = false
is_done c (x ∷ xs) = x == c || is_done c xs

-- How `RunCompletion` begins: with one of its errors, or with a request that has the context.
pub data Begins : Type 0 where
  not_initialized was_reset : Begins
  requests : ℕ → Begins

unfoldable pub run_completion : Client → Begins
unfolding is_done
run_completion s =
    if not s.is_initialized
    then not_initialized
    else if is_done s.contexts s.cancelled
    then was_reset
    else requests s.contexts

-- A stream that is opened: its identity in `activeStreams`, and the state that has it.
unfoldable pub open_stream : ℕ → Client → ℕ × Client
unfolding generate_stream_id register_stream
open_stream stream s = (generate_stream_id s, register_stream (generate_stream_id s) stream s)
