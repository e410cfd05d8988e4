-- ===== src/Conversation/Spoken.antt =====
-- What the assistant context aggregator commits to the conversation.
use interact_kit_sdk.Events.{spoken_text, tts_spoken_text_chunk, Event, Packet}
use interact_kit_sdk.Prelude.{
  ℕ, ◌≡◌, refl, sym, ap, ◌∙◌, ◌⊎◌, inl, inr, true, false, none, some, List, [], ◌∷◌, ◌++◌,
  append-nil, append_assoc, arith, is_some, Bool-cases, Option-cases, All,
}
use interact_kit_sdk.Text.{Text, is_space, fields}
use interact_kit_sdk.Text.Fields.{fields-split}
use interact_kit_sdk.Conversation.Assistant.{
  assistant_run, on_spoken, assistant_dispatch, AssistantAggregator, assistant_handle_event,
  begins_with_word, ends_in_word, is_whitespace, add_spoken,
}

is_whitespace-is_space : (c : ℕ) → is_whitespace c ≡ true → is_space c ≡ true
unfolding is_whitespace is_space
is_whitespace-is_space c h = ground arith

fields-shut : (xs : Text) (c : ℕ) → is_space c ≡ true → fields (xs ++ c ∷ []) ≡ fields xs
unfolding fields
fields-shut xs c h = fields-split xs [] c h ∙ append-nil (fields xs)

fields-open : (c : ℕ) (ys : Text) → is_space c ≡ true → fields (c ∷ ys) ≡ fields ys
unfolding fields
fields-open c ys h = fields-split [] ys c h

-- a text that does not end in a word is empty or ends in white space
ends_in_word-cases :
    (t : Text)
    → ends_in_word t ≡ false
    → (t ≡ []) ⊎ ((xs : Text) × (c : ℕ) × (t ≡ xs ++ c ∷ []) × (is_whitespace c ≡ true))
unfolding ends_in_word
ends_in_word-cases [] h = inl refl
ends_in_word-cases (c ∷ []) h = inr ([], c, refl, ground arith)
ends_in_word-cases (c ∷ d ∷ cs) h = elim (ends_in_word-cases (d ∷ cs) h) [
  | inl e ↦ absurd (cc e)
  | inr (xs, x, e, w) ↦ inr (c ∷ xs, x, ap (◌∷◌ c) e, w)
]

fields-append_shut : (s t : Text) → ends_in_word s ≡ false → fields (s ++ t) ≡ fields s ++ fields t
fields-append_shut s t h = elim (ends_in_word-cases s h) [
  | inl e ↦ rw e (unfold fields in refl)
  | inr (xs, c, e, w) ↦
      rw (e, append_assoc, fields-shut xs c (is_whitespace-is_space c w))
        (fields-split xs t c (is_whitespace-is_space c w))
]

fields-append_open :
    (s t : Text) → begins_with_word t ≡ false → fields (s ++ t) ≡ fields s ++ fields t
unfolding begins_with_word
fields-append_open s [] h = rw append-nil (unfold fields in sym (append-nil (fields s)))
fields-append_open s (c ∷ cs) h =
    let w = is_whitespace-is_space c (ground (arith, h)) in
    rw (fields-open c cs w) (fields-split s cs c w)

space_is_space : is_space 32 ≡ true
unfolding is_space
space_is_space = refl

-- a chunk joins the spoken text without a word running into another
fields-add_spoken : (s t : Text) → fields (add_spoken s t) ≡ fields s ++ fields t
unfolding add_spoken
fields-add_spoken s t = elim (Bool-cases (ends_in_word s)) [
  | inr e ↦ rw e (fields-append_shut s t e)
  | inl e ↦ elim (Bool-cases (begins_with_word t)) [
    | inr e' ↦ rw (e, e') (fields-append_open s t e')
    | inl e' ↦ rw (e, e') (fields-split s t 32 space_is_space)
  ]
]

-- packets that say what was spoken, each with a number for a random choice
abbrev pub AllSpoken : List (ℕ × Packet) → Type 0
AllSpoken = All (λ q. is_some (spoken_text q.1.event) ≡ true)

-- the words of all the chunks
unfoldable pub spoken_words : List (ℕ × Packet) → List Text
spoken_words [] = []
spoken_words ((pick, q) ∷ qs) = elim (spoken_text q.event) [
  | none ↦ spoken_words qs
  | some t ↦ fields t ++ spoken_words qs
]

-- a turn that the aggregator is listening to
pub record Listening (p : AssistantAggregator) : Type 0 where
  pub active : p.has_active_turn ≡ true
  pub not_interrupted : p.interrupted ≡ false

-- `p'` has heard the words after what `p` had heard, and nothing else is new
pub record Heard (words : List Text) (p p' : AssistantAggregator) : Type 0 where
  pub listening : Listening p'
  pub same_context : p'.context ≡ p.context
  pub heard : fields p'.spoken_buffer ≡ fields p.spoken_buffer ++ words

spoken-Heard :
    (pick : ℕ) (q : Packet) (t : Text) (p : AssistantAggregator)
    → Listening p
    → q.event ≡ tts_spoken_text_chunk t
    → Heard (fields t) p (assistant_handle_event pick q p).0
unfolding assistant_handle_event assistant_dispatch on_spoken
spoken-Heard pick q t p l e = ground (arith, fields-add_spoken p.spoken_buffer t)

pub assistant_run-append :
    (qs rs : List (ℕ × Packet)) (p : AssistantAggregator)
    → assistant_run (qs ++ rs) p ≡ assistant_run rs (assistant_run qs p)
unfolding assistant_run
assistant_run-append [] rs p = refl
assistant_run-append ((pick, q) ∷ qs) rs p =
    assistant_run-append qs rs (assistant_handle_event pick q p).0

spoken_text_iff : (e : Event) (t : Text) → spoken_text e ≡ some t → e ≡ tts_spoken_text_chunk t
spoken_text_iff e t h = ground arith

spoken_words-some :
    (pick : ℕ) (q : Packet) (t : Text) (qs : List (ℕ × Packet))
    → spoken_text q.event ≡ some t
    → spoken_words ((pick, q) ∷ qs) ≡ fields t ++ spoken_words qs
unfolding spoken_words
spoken_words-some pick q t qs e = ground arith

pub run-Heard :
    (qs : List (ℕ × Packet)) (p : AssistantAggregator)
    → Listening p
    → AllSpoken qs
    → Heard (spoken_words qs) p (assistant_run qs p)
unfolding assistant_run
run-Heard [] p l s = record {
  listening = l;
  same_context = refl;
  heard = unfold spoken_words in sym (append-nil (fields p.spoken_buffer));
}
run-Heard ((pick, q) ∷ qs) p l (s, ss) = elim (Option-cases (spoken_text q.event)) [
  | inl e ↦ absurd (ground (arith, s, e))
  | inr (t, e) ↦
      let p1 = (assistant_handle_event pick q p).0 in
      let h1 = spoken-Heard pick q t p l (spoken_text_iff q.event t e) in
      let h2 = run-Heard qs p1 h1.listening ss in
      record {
        listening = h2.listening;
        same_context = h2.same_context ∙ h1.same_context;
        heard =
            h2.heard
            ∙ ap (λ ws. ws ++ spoken_words qs) h1.heard
            ∙ append_assoc (fields p.spoken_buffer) (fields t) (spoken_words qs)
            ∙ ap (λ ws. fields p.spoken_buffer ++ ws) (sym (spoken_words-some pick q t qs e));
      }
]
