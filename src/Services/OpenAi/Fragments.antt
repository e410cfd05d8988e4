-- ===== src/Services/OpenAi/Fragments.antt =====
-- The fragments of the calls of tools in a stream, `toolCallBuilder` of
-- services/openai/llm/llm.go, against the calls that they are fragments of.
use interact_kit_sdk.Text.{is_empty, Text}
use interact_kit_sdk.Services.OpenAi.Stream.{
  set_call, begun, Builder, add_at, extend, call_at, ToolCall, add_deltas,
}
use interact_kit_sdk.Prelude.{
  ℕ, ◌≡◌, refl, sym, ap, ◌∙◌, inl, inr, Option, none, some, List, [], ◌∷◌, ◌++◌, append-nil,
  append_assoc, arith, ◌==◌, if◌then◌else◌, ==_iff, Bool-cases,
}

-- the arguments that a fragment adds to those of an index
abbrev pub fragment_on : ℕ → Option ℕ → Text → Text
fragment_on i none t = []
fragment_on i (some j) t = if j == i then t else []

-- the arguments of an index, joined from its fragments
unfoldable pub fragments : ℕ → List ToolCall → Text
fragments i [] = []
fragments i (d ∷ ds) = fragment_on i d.index d.arguments ++ fragments i ds

abbrev pub arguments_of : Option ToolCall → Text
arguments_of none = []
arguments_of (some c) = c.arguments

-- the name of an index: that of its last fragment with a name
abbrev pub name_on : ℕ → Option ℕ → Text → Text → Text
name_on i none t old = old
name_on i (some j) [] old = old
name_on i (some j) (c ∷ cs) old = if j == i then c ∷ cs else old

unfoldable pub last_name : ℕ → List ToolCall → Text → Text
last_name i [] old = old
last_name i (d ∷ ds) old = last_name i ds (name_on i d.index d.name old)

abbrev pub name_of : Option ToolCall → Text
name_of none = []
name_of (some c) = c.name

call_at-set_call :
    (i j : ℕ) (c : ToolCall) (b : Builder)
    → call_at j (set_call i c b) ≡ (if i == j then some c else call_at j b)
unfolding call_at set_call
call_at-set_call i j c [] = refl
call_at-set_call i j c ((k, d) ∷ b) = ground (arith, call_at-set_call i j c b)

begun-arguments : (d : ToolCall) (o : Option ToolCall) → (begun d o).arguments ≡ arguments_of o
begun-arguments d none = refl
begun-arguments d (some c) = refl

begun-name : (d : ToolCall) (o : Option ToolCall) → (begun d o).name ≡ name_of o
begun-name d none = refl
begun-name d (some c) = refl

extend-name :
    (t : Text) (d c : ToolCall)
    → d.name ≡ t
    → (extend d c).name ≡ (if is_empty t then c.name else t)
unfolding extend
extend-name t d c e = rw e refl

add_at-arguments :
    (i : ℕ) (o : Option ℕ) (d : ToolCall) (b : Builder)
    → arguments_of (call_at i (add_at o d b))
      ≡ arguments_of (call_at i b) ++ fragment_on i o d.arguments
unfolding add_at extend
add_at-arguments i none d b = sym (append-nil (arguments_of (call_at i b)))
add_at-arguments i (some j) d b = elim (Bool-cases (j == i)) [
  | inr other ↦
      rw (call_at-set_call j i (extend d (begun d (call_at j b))) b, other)
        (sym (append-nil (arguments_of (call_at i b))))
  | inl same ↦
      rw (call_at-set_call j i (extend d (begun d (call_at j b))) b, same)
        (ap (λ t. t ++ d.arguments)
          (begun-arguments d (call_at j b)
            ∙ ap (λ k. arguments_of (call_at k b)) ((==_iff j i).0 same)))
]

add_at-name :
    (i : ℕ) (o : Option ℕ) (t : Text) (d : ToolCall) (b : Builder)
    → d.name ≡ t
    → name_of (call_at i (add_at o d b)) ≡ name_on i o t (name_of (call_at i b))
unfolding add_at
add_at-name i none t d b e = refl
add_at-name i (some j) [] d b e = elim (Bool-cases (j == i)) [
  | inr other ↦ rw (call_at-set_call j i (extend d (begun d (call_at j b))) b, other) refl
  | inl same ↦
      rw (call_at-set_call j i (extend d (begun d (call_at j b))) b, same)
        (extend-name [] d (begun d (call_at j b)) e
          ∙ begun-name d (call_at j b)
          ∙ ap (λ k. name_of (call_at k b)) ((==_iff j i).0 same))
]
add_at-name i (some j) (c ∷ cs) d b e = elim (Bool-cases (j == i)) [
  | inr other ↦ rw (call_at-set_call j i (extend d (begun d (call_at j b))) b, other) refl
  | inl same ↦
      rw (call_at-set_call j i (extend d (begun d (call_at j b))) b, same)
        (extend-name (c ∷ cs) d (begun d (call_at j b)) e)
]

-- The call gathered at an index, from the fragments of a stream in any order of the indices: its
-- arguments are those it had before and then those of its fragments, joined in their order; its
-- name is that of the last fragment of the index that has one.
pub add_deltas-call :
    (i : ℕ) (ds : List ToolCall) (b : Builder)
    → (arguments_of (call_at i (add_deltas ds b)) ≡ arguments_of (call_at i b) ++ fragments i ds)
      × (name_of (call_at i (add_deltas ds b)) ≡ last_name i ds (name_of (call_at i b)))
unfolding add_deltas fragments last_name
add_deltas-call i [] b = (sym (append-nil (arguments_of (call_at i b))), refl)
add_deltas-call i (d ∷ ds) b =
    let (args, named) = add_deltas-call i ds (add_at d.index d b) in
    (
      args
          ∙ ap (λ t. t ++ fragments i ds) (add_at-arguments i d.index d b)
          ∙ append_assoc (arguments_of (call_at i b)) (fragment_on i d.index d.arguments)
              (fragments i ds),
      named ∙ ap (last_name i ds) (add_at-name i d.index d.name d b refl),
    )
