-- ===== src/Services/OpenAi/Gathered.antt =====
-- The calls of tools that services/openai/llm/llm.go sends at the end of a stream, beside those of
-- an answer that comes whole.
use interact_kit_sdk.Services.OpenAi.Streamed.{
  run_stream-gathers, run_stream-texts, deltas, stream_of, contents, first_reason, is_empty-nil,
  texts_of, IsUnfinished, calls_of, named_call,
}
use interact_kit_sdk.Text.{codes, text_eq, is_empty, Text}
use interact_kit_sdk.Services.OpenAi.Stream.{
  add_deltas, run_stream, convert_tool_call, send_all_calls, Choice, run_whole, ToolCall, Builder,
}
use mathlib.Core.List.{filter_map, Perm}
use mathlib.Core.List.Perm as Permutation
use interact_kit_sdk.Prelude.{
  ℕ, suc, ◌≡◌, refl, sym, ap, subst, ◌∙◌, inl, inr, true, false, Option, none, some, List, [], ◌∷◌,
  ◌++◌, map, append-nil, Bool-cases, All,
}

module _ {A : Type 0} (decode : Text → Option A) (order : Builder → Builder)
    (ordered : (b : Builder) → Perm (order b) b) (answers : List (List Choice)) (last : List Choice)
    (unfinished : All IsUnfinished answers)
    (ends : text_eq (first_reason last) (codes "tool_calls") ≡ true) where
  -- In whatever order a `range` takes the entries of a map: an uninterrupted stream of which the last
  -- answer alone has the finish reason `tool_calls` sends the invocations of the calls gathered from
  -- all its fragments, each that has a name once, and no others.
  pub run_stream-calls :
      Perm
        (calls_of (run_stream decode order (stream_of (answers ++ last ∷ [])) (some [])).0)
        (filter_map (named_call decode) (add_deltas (deltas (answers ++ last ∷ [])) []))
  run_stream-calls = rw (run_stream-gathers decode order answers last [] unfinished ends) (
      Permutation.filter_map (named_call decode)
        (ordered (add_deltas (deltas (answers ++ last ∷ [])) [])))

-- a call that has a name
abbrev pub IsNamed : ToolCall → Type 0
IsNamed c = is_empty c.name ≡ false

-- the calls of a builder, without the index that only fragments have
unfoldable pub gathered : Builder → List ToolCall
gathered = map (λ (i, c). record c { index = none })

module _ {A : Type 0} (decode : Text → Option A) where
  send_all_calls-map :
      (k : ℕ) (cs : List ToolCall)
      → (calls_of (send_all_calls decode (λ j. false) k cs) ≡ map (convert_tool_call decode) cs)
        × (texts_of (send_all_calls decode (λ j. false) k cs) ≡ [])
  unfolding send_all_calls calls_of texts_of
  send_all_calls-map k [] = (refl, refl)
  send_all_calls-map k (c ∷ cs) =
      let (calls, texts) = send_all_calls-map (suc k) cs in
      (ap (◌∷◌ (convert_tool_call decode c)) calls, texts)

  run_whole-all :
      (m : Choice)
      → (calls_of (run_whole decode false (λ j. false) (m ∷ []))
          ≡ map (convert_tool_call decode) m.tool_calls)
        × (texts_of (run_whole decode false (λ j. false) (m ∷ [])) ≡ m.content)
  unfolding run_whole calls_of texts_of
  run_whole-all m =
      let (calls, texts) = send_all_calls-map 0 m.tool_calls in
      elim (Bool-cases (is_empty m.content)) [
        | inl silent ↦ rw silent (calls, texts ∙ sym (is_empty-nil m.content silent))
        | inr says ↦ rw says (calls, ap (λ z. m.content ++ z) texts ∙ append-nil m.content)
      ]

  named-map :
      (b : Builder)
      → All IsNamed (gathered b)
      → filter_map (named_call decode) b ≡ map (convert_tool_call decode) (gathered b)
  unfolding filter_map named_call gathered convert_tool_call
  named-map [] h = refl
  named-map ((i, c) ∷ b) (named, h) =
      rw named (ap (◌∷◌ (convert_tool_call decode c)) (named-map b h))

  -- A message that comes whole, and a stream of it that nothing interrupts, of which the last answer
  -- alone has the finish reason `tool_calls`, whose contents joined are that of the message, and
  -- whose gathered calls, without their indices, are those of the message, each with a name: both
  -- ways send the same text, and the same invocations up to their order.
  pub run_stream-as-run_whole :
      (order : Builder → Builder) (answers : List (List Choice)) (last : List Choice) (m : Choice)
      → ((b : Builder) → Perm (order b) b)
      → All IsUnfinished answers
      → text_eq (first_reason last) (codes "tool_calls") ≡ true
      → contents (answers ++ last ∷ []) ≡ m.content
      → gathered (add_deltas (deltas (answers ++ last ∷ [])) []) ≡ m.tool_calls
      → All IsNamed m.tool_calls
      → let streamed = (run_stream decode order (stream_of (answers ++ last ∷ [])) (some [])).0 in
        let whole = run_whole decode false (λ j. false) (m ∷ []) in
        (texts_of streamed ≡ texts_of whole) × Perm (calls_of streamed) (calls_of whole)
  run_stream-as-run_whole order answers last m ordered more ends said calls named =
      let (whole_calls, whole_texts) = run_whole-all m in
      let b = add_deltas (deltas (answers ++ last ∷ [])) [] in
      (
        run_stream-texts decode order (answers ++ last ∷ []) [] ∙ said ∙ sym whole_texts,
        subst
            (λ c.
              Perm
                (calls_of (run_stream decode order (stream_of (answers ++ last ∷ [])) (some [])).0)
                c)
            (named-map b (subst (All IsNamed) (sym calls) named)
              ∙ ap (map (convert_tool_call decode)) calls
              ∙ sym whole_calls)
            (run_stream-calls decode order ordered answers last more ends),
      )
