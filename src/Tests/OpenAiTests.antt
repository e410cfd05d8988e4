-- ===== src/Tests/OpenAiTests.antt =====
-- Runs of the language model service, services/openai/llm/llm.go.
use mathlib.Core.List.{Perm}
use interact_kit_sdk.Services.OpenAi.Gathered.{run_stream-as-run_whole, gathered}
use interact_kit_sdk.Services.OpenAi.Client.{not_initialized, requests, run_completion, new_client}
use interact_kit_sdk.Services.OpenAi.Stream.{
  run_whole, run_stream, add_deltas, call_at, Builder, ToolCall, Choice,
}
use interact_kit_sdk.Text.{text_eq, codes, Text}
use interact_kit_sdk.Services.OpenAi.Streamed.{calls_of, texts_of, stream_of, deltas, contents}
use interact_kit_sdk.Services.OpenAi.Fragments.{
  add_deltas-call, last_name, name_of, fragments, arguments_of,
}
use mathlib.Core.List.Perm as Permutation
use interact_kit_sdk.Services.OpenAi.Resets.{
  run_completion-after, Change, changes, initializes, resets,
}
use interact_kit_sdk.Prelude.{
  ℕ, String, ◌≡◌, refl, false, Option, none, some, List, [], ◌∷◌, ◌++◌, if◌then◌else◌,
}

abbrev no_reason : Text
no_reason = []

-- a call of a tool in two fragments, with a text before it
abbrev fragment : Option ℕ → String → String → ToolCall
fragment i n a = record {
  index = i;
  id = [];
  kind = codes "function";
  name = codes n;
  arguments = codes a;
}

abbrev answers : List (List Choice)
answers =
    (record { content = codes "One "; tool_calls = []; finish_reason = no_reason } ∷ [])
    ∷ (record {
      content = codes "moment";
      tool_calls = fragment (some 0) "add" "{" ∷ [];
      finish_reason = no_reason;
    }
        ∷ [])
    ∷ (record {
      content = [];
      tool_calls = fragment (some 0) "" "}" ∷ [];
      finish_reason = no_reason;
    }
        ∷ [])
    ∷ []

abbrev last_answer : List Choice
last_answer = record { content = []; tool_calls = []; finish_reason = codes "tool_calls" } ∷ []

abbrev whole : Choice
whole = record {
  content = codes "One moment";
  tool_calls = fragment none "add" "{}" ∷ [];
  finish_reason = codes "tool_calls";
}

abbrev text_itself : Text → Option Text
text_itself t = some t

abbrev as_it_is : Builder → Builder
as_it_is b = b

whole_example :
    let streamed =
      (run_stream text_itself as_it_is (stream_of (answers ++ last_answer ∷ [])) (some [])).0 in
    let at_once = run_whole text_itself false (λ j. false) (whole ∷ []) in
    (texts_of streamed ≡ texts_of at_once) × Perm (calls_of streamed) (calls_of at_once)
unfolding contents add_deltas deltas gathered text_eq
whole_example =
    run_stream-as-run_whole text_itself as_it_is answers last_answer whole (λ b. Permutation.refl b)
      (refl, (refl, (refl, tt))) refl refl refl (refl, tt)

deltas_example :
    (arguments_of (call_at 0 (add_deltas (deltas answers) []))
      ≡ arguments_of (call_at 0 []) ++ fragments 0 (deltas answers))
    × (name_of (call_at 0 (add_deltas (deltas answers) []))
        ≡ last_name 0 (deltas answers) (name_of (call_at 0 [])))
deltas_example = add_deltas-call 0 (deltas answers) []

abbrev some_changes : List Change
some_changes = initializes ∷ resets ∷ []

completion_example :
    let s = changes some_changes (new_client (codes "k")) in
    run_completion s ≡ (if s.is_initialized then requests s.contexts else not_initialized)
completion_example = run_completion-after (codes "k") some_changes
