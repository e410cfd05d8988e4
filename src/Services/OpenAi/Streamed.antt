-- ===== src/Services/OpenAi/Streamed.antt =====
-- What a stream sends that nothing interrupts: `runStreamingCompletion` of
-- services/openai/llm/llm.go, beside `runNonStreamingCompletion`.
use interact_kit_sdk.Text.{codes, text_eq, is_empty, Text}
use interact_kit_sdk.Services.OpenAi.Stream.{
  receive, add_at, run_stream, add_deltas, take_choice, finish_choice, convert_tool_call, call_sent,
  content_sent, Builder, Invocation, ToolCall, send_calls, StreamOutput, Choice, Round,
}
use mathlib.Core.List.{filter_map}
use interact_kit_sdk.Prelude.{
  ℕ, suc, ◌≡◌, refl, sym, ap, ap₂, ◌∙◌, inl, inr, Bool, true, false, Option, none, some, List, [],
  ◌∷◌, ◌++◌, append-nil, append_assoc, if◌then◌else◌, Bool-cases, All,
}

-- a round that is not interrupted, and the last one
abbrev pub live : List Choice → Round
live choices = record {
  context_done = false;
  received = some choices;
  content_stopped = false;
  call_stopped = λ k. false;
}

abbrev pub last_round : Round
last_round = record {
  context_done = false;
  received = none;
  content_stopped = false;
  call_stopped = λ k. false;
}

-- a stream of answers, to its end
abbrev pub stream_of : List (List Choice) → List Round
stream_of [] = last_round ∷ []
stream_of (a ∷ as_) = live a ∷ stream_of as_

-- what the first choice of each answer holds
abbrev pub first_content : List Choice → Text
first_content [] = []
first_content (c ∷ cs) = c.content

abbrev pub first_calls : List Choice → List ToolCall
first_calls [] = []
first_calls (c ∷ cs) = c.tool_calls

abbrev pub first_reason : List Choice → Text
first_reason [] = []
first_reason (c ∷ cs) = c.finish_reason

-- an answer that has not the finish reason that sends the calls
abbrev pub IsUnfinished : List Choice → Type 0
IsUnfinished a = text_eq (first_reason a) (codes "tool_calls") ≡ false

unfoldable pub contents : List (List Choice) → Text
contents [] = []
contents (a ∷ as_) = first_content a ++ contents as_

unfoldable pub deltas : List (List Choice) → List ToolCall
deltas [] = []
deltas (a ∷ as_) = first_calls a ++ deltas as_

pub is_empty-nil : (t : Text) → is_empty t ≡ true → t ≡ []
is_empty-nil [] h = refl
is_empty-nil (c ∷ cs) h = cc

add_deltas-append :
    (xs ys : List ToolCall) (b : Builder)
    → add_deltas (xs ++ ys) b ≡ add_deltas ys (add_deltas xs b)
unfolding add_deltas
add_deltas-append [] ys b = refl
add_deltas-append (d ∷ xs) ys b = add_deltas-append xs ys (add_at d.index d b)

module _ {A : Type 0} where
  -- the texts that are sent, joined, and the calls
  unfoldable pub texts_of : List (StreamOutput A) → Text
  texts_of [] = []
  texts_of (content_sent t ∷ out) = t ++ texts_of out
  texts_of (call_sent c ∷ out) = texts_of out

  unfoldable pub calls_of : List (StreamOutput A) → List (Invocation A)
  calls_of [] = []
  calls_of (content_sent t ∷ out) = calls_of out
  calls_of (call_sent c ∷ out) = c ∷ calls_of out

  pub texts_of-append :
      (xs ys : List (StreamOutput A)) → texts_of (xs ++ ys) ≡ texts_of xs ++ texts_of ys
  unfolding texts_of
  texts_of-append [] ys = refl
  texts_of-append (content_sent t ∷ xs) ys =
      ap (λ z. t ++ z) (texts_of-append xs ys) ∙ sym (append_assoc t (texts_of xs) (texts_of ys))
  texts_of-append (call_sent c ∷ xs) ys = texts_of-append xs ys

  pub calls_of-append :
      (xs ys : List (StreamOutput A)) → calls_of (xs ++ ys) ≡ calls_of xs ++ calls_of ys
  unfolding calls_of
  calls_of-append [] ys = refl
  calls_of-append (content_sent t ∷ xs) ys = calls_of-append xs ys
  calls_of-append (call_sent c ∷ xs) ys = ap (◌∷◌ c) (calls_of-append xs ys)

  module _ (decode : Text → Option A) where
    -- the invocation of an entry that has a name
    unfoldable pub named_call : ℕ × ToolCall → Option (Invocation A)
    named_call (i, c) = if is_empty c.name then none else some (convert_tool_call decode c)

    send_calls-all :
        (k : ℕ) (b : Builder)
        → (calls_of (send_calls decode (λ j. false) k b).0 ≡ filter_map named_call b)
          × (texts_of (send_calls decode (λ j. false) k b).0 ≡ [])
          × ((send_calls decode (λ j. false) k b).1 ≡ false)
    unfolding send_calls calls_of texts_of named_call filter_map
    send_calls-all k [] = (refl, refl, refl)
    send_calls-all k ((i, c) ∷ b) =
        let (calls, texts, early) = send_calls-all (suc k) b in
        elim (Bool-cases (is_empty c.name)) [
          | inl unnamed ↦ rw unnamed (calls, texts, early)
          | inr named ↦ rw named (ap (◌∷◌ (convert_tool_call decode c)) calls, texts, early)
        ]

    module _ (order : Builder → Builder) where
      -- the calls that an answer makes known, and the builder after it
      abbrev calls_after : Bool → Builder → List (Invocation A)
      calls_after true b = filter_map named_call (order b)
      calls_after false b = []

      abbrev builder_after : Bool → Builder → Builder
      builder_after true b = []
      builder_after false b = b

      calls_after-none : (ends : Bool) (b : Builder) → ends ≡ false → calls_after ends b ≡ []
      calls_after-none true b h = cc
      calls_after-none false b h = refl

      builder_after-same : (ends : Bool) (b : Builder) → ends ≡ false → builder_after ends b ≡ b
      builder_after-same true b h = cc
      builder_after-same false b h = refl

      finish_choice-all :
          (reason : Text) (b : Builder)
          → let (sent, next) = finish_choice decode order (λ k. false) reason b in
            let ends = text_eq reason (codes "tool_calls") in
            (calls_of sent ≡ calls_after ends b)
            × (texts_of sent ≡ [])
            × (next ≡ some (builder_after ends b))
      unfolding finish_choice calls_of texts_of
      finish_choice-all reason b =
          let (calls, texts, early) = send_calls-all 0 (order b) in
          elim (Bool-cases (text_eq reason (codes "tool_calls"))) [
            | inl ends ↦ rw ends (calls, texts, rw early refl)
            | inr more ↦ rw more (refl, refl, refl)
          ]

      -- an answer that nothing interrupts
      take_choice-all :
          (a : List Choice) (b : Builder)
          → let (sent, next) = take_choice decode order (live a) a b in
            let ends = text_eq (first_reason a) (codes "tool_calls") in
            let gathered = add_deltas (first_calls a) b in
            (calls_of sent ≡ calls_after ends gathered)
            × (texts_of sent ≡ first_content a)
            × (next ≡ some (builder_after ends gathered))
      unfolding take_choice add_deltas calls_of texts_of text_eq
      take_choice-all [] b = (refl, refl, refl)
      take_choice-all (c ∷ cs) b =
          let (calls, texts, next) =
            finish_choice-all c.finish_reason (add_deltas c.tool_calls b) in
          elim (Bool-cases (is_empty c.content)) [
            | inl silent ↦ rw silent (calls, texts ∙ sym (is_empty-nil c.content silent), next)
            | inr says ↦
                rw says (calls, ap (λ z. c.content ++ z) texts ∙ append-nil c.content, next)
          ]

      -- Whatever the finish reasons, the order of the calls and the calls gathered before: the texts
      -- that an uninterrupted stream sends, joined, are the contents of its answers, joined.
      pub run_stream-texts :
          (answers : List (List Choice)) (b : Builder)
          → texts_of (run_stream decode order (stream_of answers) (some b)).0 ≡ contents answers
      unfolding run_stream receive texts_of contents
      run_stream-texts [] b = refl
      run_stream-texts (a ∷ answers) b =
          let (sent, next) = take_choice decode order (live a) a b in
          let (calls, texts, goes) = take_choice-all a b in
          rw goes (texts_of-append sent _ ∙ ap₂ (λ x y. x ++ y) texts (run_stream-texts answers _))

      -- An uninterrupted stream none of whose answers has the finish reason `tool_calls` makes no
      -- call of a tool, whatever fragments it brings.
      pub run_stream-forgets :
          (answers : List (List Choice)) (b : Builder)
          → All IsUnfinished answers
          → calls_of (run_stream decode order (stream_of answers) (some b)).0 ≡ []
      unfolding run_stream receive calls_of
      run_stream-forgets [] b h = refl
      run_stream-forgets (a ∷ answers) b (more, h) =
          let (sent, next) = take_choice decode order (live a) a b in
          let (calls, texts, goes) = take_choice-all a b in
          rw goes (
            calls_of-append sent _
            ∙ ap₂ (λ x y. x ++ y) (calls ∙ calls_after-none _ _ more)
                (run_stream-forgets answers _ h))

      -- the calls of a stream whose last answer alone has that finish reason
      pub run_stream-gathers :
          (answers : List (List Choice)) (last : List Choice) (b : Builder)
          → All IsUnfinished answers
          → text_eq (first_reason last) (codes "tool_calls") ≡ true
          → calls_of (run_stream decode order (stream_of (answers ++ last ∷ [])) (some b)).0
            ≡ filter_map named_call (order (add_deltas (deltas (answers ++ last ∷ [])) b))
      unfolding run_stream receive calls_of deltas add_deltas
      run_stream-gathers [] last b h ends =
          let (sent, next) = take_choice decode order (live last) last b in
          let (calls, texts, goes) = take_choice-all last b in
          rw goes (
            calls_of-append sent []
            ∙ append-nil (calls_of sent)
            ∙ calls
            ∙ rw (ends, append-nil) refl)
      run_stream-gathers (a ∷ answers) last b (more, h) ends =
          let (sent, next) = take_choice decode order (live a) a b in
          let (calls, texts, goes) = take_choice-all a b in
          rw goes (
            calls_of-append sent _
            ∙ ap₂ (λ x y. x ++ y) (calls ∙ calls_after-none _ _ more)
                (run_stream-gathers answers last _ h ends)
            ∙ ap (λ c. filter_map named_call (order (add_deltas (deltas (answers ++ last ∷ [])) c)))
                (builder_after-same _ _ more)
            ∙ ap (λ c. filter_map named_call (order c))
                (sym (add_deltas-append (first_calls a) (deltas (answers ++ last ∷ [])) b)))
