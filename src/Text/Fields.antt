-- ===== src/Text/Fields.antt =====
-- The words of a text, and how they join.
use interact_kit_sdk.Prelude.{
  ℕ, ◌≡◌, refl, ap, ◌∙◌, inl, inr, true, [], ◌∷◌, ◌++◌, arith, if◌then◌else◌, Bool-cases,
}
use interact_kit_sdk.Text.{Text, is_space, fields, fields_from, trim_left, trim_right, trim_space}

-- a space ends the word that is open
fields_from-split :
    (w xs ys : Text) (c : ℕ)
    → is_space c ≡ true
    → fields_from w (xs ++ c ∷ ys) ≡ fields_from w xs ++ fields_from [] ys
unfolding fields_from
fields_from-split [] [] ys c h = rw (h, fields_from) refl
fields_from-split (w ∷ ws) [] ys c h = rw (h, fields_from) refl
fields_from-split [] (x ∷ xs) ys c h =
    fields_from-split (if is_space x then [] else x ∷ []) xs ys c h
fields_from-split (w ∷ ws) (x ∷ xs) ys c h = elim (Bool-cases (is_space x)) [
  | inl e ↦ rw e (ap (◌∷◌ (w ∷ ws)) (fields_from-split [] xs ys c h))
  | inr e ↦ rw e (fields_from-split ((w ∷ ws) ++ x ∷ []) xs ys c h)
]

pub fields-split :
    (xs ys : Text) (c : ℕ) → is_space c ≡ true → fields (xs ++ c ∷ ys) ≡ fields xs ++ fields ys
unfolding fields
fields-split xs ys c h = fields_from-split [] xs ys c h

fields_from-trim_right : (w t : Text) → fields_from w (trim_right t) ≡ fields_from w t
unfolding fields_from trim_right
fields_from-trim_right w [] = refl
fields_from-trim_right [] (c ∷ cs) =
    ground (arith, fields_from-trim_right (if is_space c then [] else c ∷ []) cs)
fields_from-trim_right (w ∷ ws) (c ∷ cs) =
    ground (arith, fields_from-trim_right [] cs, fields_from-trim_right ((w ∷ ws) ++ c ∷ []) cs)

fields-trim_left : (t : Text) → fields (trim_left t) ≡ fields t
unfolding fields fields_from trim_left
fields-trim_left [] = refl
fields-trim_left (c ∷ cs) = ground (arith, fields-trim_left cs)

pub fields-trim_space : (t : Text) → fields (trim_space t) ≡ fields t
unfolding trim_space fields
fields-trim_space t = fields_from-trim_right [] (trim_left t) ∙ fields-trim_left t
