-- ===== src/Services/OpenAi/Completion.antt =====
-- The ways through `RunCompletion` of services/openai/llm/llm.go, from its tests to the signal of
-- its end, and `GenerateJsonOutput`.
use interact_kit_sdk.Services.OpenAi.Client.{
  was_reset, not_initialized, requests, Begins, run_completion, Client,
}
use interact_kit_sdk.Services.OpenAi.Stream.{
  run_whole, run_stream, Choice, Builder, Round, StreamOutput,
}
use interact_kit_sdk.Text.{codes, is_empty, Text}
use interact_kit_sdk.Prelude.{
  ℕ, ◌≡◌, refl, Bool, true, false, Option, none, some, List, [], ◌∷◌, ◌++◌, map, if◌then◌else◌,
}

-- what goes to the channels of the handler
pub data CompletionOutput (A : Type 0) : Type 0 where
  completion_starts completion_ends : CompletionOutput A
  answers : StreamOutput A → CompletionOutput A
  fatal_error : Text → CompletionOutput A

-- What comes of a request: an error, with whether the context is done by then, as it is where a reset
-- comes before the request; the rounds of a stream; or the choices of a whole answer.
pub data Answered : Type 0 where
  refused : Text → Bool → Answered
  streamed : List Round → Answered
  whole : Bool → (ℕ → Bool) → List Choice → Answered

-- a signal, which is dropped where nobody waits for it
abbrev pub signal {ℓ} : {A : Type ℓ} → Bool → A → List A
signal true a = a ∷ []
signal false a = []

module _ {A : Type 0} (decode : Text → Option A) (order : Builder → Builder) where
  -- `runStreamingCompletion` or `runNonStreamingCompletion`, with the words of its error
  unfoldable pub answer_with : Text → Answered → List (CompletionOutput A)
  unfolding run_stream run_whole
  answer_with words (refused e true) = []
  answer_with words (refused e false) = fatal_error (words ++ e) ∷ []
  answer_with words (streamed rounds) = map answers (run_stream decode order rounds (some [])).0
  answer_with words (whole stopped calls choices) =
      map answers (run_whole decode stopped calls choices)

  -- `RunCompletion`, with whether its two signals are waited for
  unfoldable pub complete_on : Begins → Text → Bool → Bool → Answered → List (CompletionOutput A)
  unfolding answer_with
  complete_on not_initialized words starts ends a =
      fatal_error (codes "OpenAI service not initialized") ∷ []
  complete_on was_reset words starts ends a =
      fatal_error (codes "service was reset during completion") ∷ []
  complete_on (requests c) words starts ends a =
      signal starts completion_starts ++ (answer_with words a ++ signal ends completion_ends)

  unfoldable pub complete : Client → Text → Bool → Bool → Answered → List (CompletionOutput A)
  unfolding complete_on run_completion
  complete s words starts ends a = complete_on (run_completion s) words starts ends a

  -- Does a completion end as it should: with its end, after what is no end?
  unfoldable pub ends_once : List (CompletionOutput A) → Bool
  ends_once [] = false
  ends_once (completion_ends ∷ out) = is_empty out
  ends_once (completion_starts ∷ out) = ends_once out
  ends_once (answers o ∷ out) = ends_once out
  ends_once (fatal_error e ∷ out) = ends_once out

  ends_once-answers :
      (xs : List (StreamOutput A)) → ends_once (map answers xs ++ completion_ends ∷ []) ≡ true
  unfolding ends_once
  ends_once-answers [] = refl
  ends_once-answers (x ∷ xs) = ends_once-answers xs

  ends_once-answer_with :
      (words : Text) (a : Answered) → ends_once (answer_with words a ++ completion_ends ∷ []) ≡ true
  unfolding ends_once answer_with
  ends_once-answer_with words (refused e true) = refl
  ends_once-answer_with words (refused e false) = refl
  ends_once-answer_with words (streamed rounds) =
      ends_once-answers (run_stream decode order rounds (some [])).0
  ends_once-answer_with words (whole stopped calls choices) =
      ends_once-answers (run_whole decode stopped calls choices)

  -- A completion of a service with a live context, whose signals are waited for, starts once, and
  -- ends once, at its end, whether its request is refused, its stream breaks off or is reset, or it
  -- is answered.
  pub complete-ends :
      (s : Client) (c : ℕ) (words : Text) (a : Answered)
      → run_completion s ≡ requests c
      → (out : List (CompletionOutput A)) × (complete s words true true a ≡ completion_starts ∷ out)
        × (ends_once out ≡ true)
  unfolding complete complete_on
  complete-ends s c words a r =
      (answer_with words a ++ completion_ends ∷ [], rw r refl, ends_once-answer_with words a)

-- the result of `GenerateJsonOutput`
pub data JsonOutput (A : Type 0) : Type 0 where
  json_of : A → JsonOutput A
  no_service no_completion empty_completion undecodable : JsonOutput A

abbrev pub decoded_or : {A : Type 0} → Option A → JsonOutput A
decoded_or none = undecodable
decoded_or (some a) = json_of a

-- the first choice of the answer, as JSON
unfoldable pub first_json : {A : Type 0} → (Text → Option A) → List Choice → JsonOutput A
first_json decode [] = empty_completion
first_json decode (c ∷ cs) =
    if is_empty c.content then empty_completion else decoded_or (decode c.content)

-- `GenerateJsonOutput`, where `none` is an error of the client. Its context is its own, so a reset
-- does not end it.
unfoldable pub generate_json_output :
    {A : Type 0} → (Text → Option A) → Option (List Choice) → Client → JsonOutput A
unfolding first_json
generate_json_output decode none s = if s.is_initialized then no_completion else no_service
generate_json_output decode (some choices) s =
    if s.is_initialized then first_json decode choices else no_service
