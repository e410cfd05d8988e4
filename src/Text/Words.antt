-- ===== src/Text/Words.antt =====
-- The words that `fields` finds.
use interact_kit_sdk.Prelude.{
  ℕ, ◌≡◌, refl, sym, ap, subst, ◌∙◌, inl, inr, false, [], ◌∷◌, ◌++◌, append_assoc, if◌then◌else◌,
  Bool-cases, All, All-append,
}
use interact_kit_sdk.Text.{Text, is_space, fields, fields_from}

-- a text without a space
abbrev Unbroken : Text → Type 0
Unbroken = All (λ c. is_space c ≡ false)

-- a text that is one word
abbrev pub IsWord : Text → Type 0
IsWord w = fields w ≡ w ∷ []

fields_from-Unbroken :
    (w : Text) (c : ℕ) (cs : Text) → Unbroken (c ∷ cs) → fields_from w (c ∷ cs) ≡ (w ++ c ∷ cs) ∷ []
unfolding fields_from
fields_from-Unbroken [] c [] (h, hs) = rw (h, fields_from) refl
fields_from-Unbroken (w ∷ ws) c [] (h, hs) = rw (h, fields_from) refl
fields_from-Unbroken [] c (d ∷ ds) (h, hs) =
    ap (λ b. fields_from (if b then [] else c ∷ []) (d ∷ ds)) h
    ∙ fields_from-Unbroken (c ∷ []) d ds hs
fields_from-Unbroken (w ∷ ws) c (d ∷ ds) (h, hs) = rw h (
    fields_from-Unbroken ((w ∷ ws) ++ c ∷ []) d ds hs
    ∙ ap (λ x. x ∷ []) (append_assoc (w ∷ ws) (c ∷ []) (d ∷ ds)))

Unbroken-IsWord : (c : ℕ) (cs : Text) → Unbroken (c ∷ cs) → IsWord (c ∷ cs)
unfolding fields
Unbroken-IsWord c cs h = fields_from-Unbroken [] c cs h

fields_from-IsWord : (w t : Text) → Unbroken w → All IsWord (fields_from w t)
unfolding fields_from
fields_from-IsWord [] [] h = tt
fields_from-IsWord (w ∷ ws) [] h = (Unbroken-IsWord w ws h, tt)
fields_from-IsWord [] (c ∷ cs) h = elim (Bool-cases (is_space c)) [
  | inl e ↦
      subst (λ b. All IsWord (fields_from (if b then [] else c ∷ []) cs)) (sym e)
        (fields_from-IsWord [] cs tt)
  | inr e ↦
      subst (λ b. All IsWord (fields_from (if b then [] else c ∷ []) cs)) (sym e)
        (fields_from-IsWord (c ∷ []) cs (e, tt))
]
fields_from-IsWord (w ∷ ws) (c ∷ cs) h =
    let next = (w ∷ ws) ∷ fields_from [] cs in
    let more = fields_from ((w ∷ ws) ++ c ∷ []) cs in
    elim (Bool-cases (is_space c)) [
      | inl e ↦
          subst (λ b. All IsWord (if b then next else more)) (sym e)
            (Unbroken-IsWord w ws h, fields_from-IsWord [] cs tt)
      | inr e ↦
          subst (λ b. All IsWord (if b then next else more)) (sym e)
            (fields_from-IsWord ((w ∷ ws) ++ c ∷ []) cs (All-append _ (w ∷ ws) (c ∷ []) h (e, tt)))
    ]

pub fields-IsWord : (t : Text) → All IsWord (fields t)
unfolding fields
fields-IsWord t = fields_from-IsWord [] t tt
