-- ===== src/Text/Laws.antt =====
-- Laws of the text functions.
use interact_kit_sdk.Prelude.{◌≡◌, refl, true, false, [], ◌∷◌, arith}
use interact_kit_sdk.Text.{text_eq, Text, is_space, trim_left, trim_right, trim_space}

pub trim_right_idem : (t : Text) → trim_right (trim_right t) ≡ trim_right t
unfolding trim_right
trim_right_idem [] = refl
trim_right_idem (c ∷ cs) = ground (arith, trim_right_idem cs)

-- a text that begins with no space
abbrev IsLeftTrimmed : Text → Type 0
IsLeftTrimmed [] = Unit
IsLeftTrimmed (c ∷ cs) = is_space c ≡ false

trim_left-IsLeftTrimmed : (t : Text) → IsLeftTrimmed (trim_left t)
unfolding trim_left
trim_left-IsLeftTrimmed [] = tt
trim_left-IsLeftTrimmed (c ∷ cs) = ground (arith, trim_left-IsLeftTrimmed cs)

trim_right-IsLeftTrimmed : (t : Text) → IsLeftTrimmed t → IsLeftTrimmed (trim_right t)
unfolding trim_right
trim_right-IsLeftTrimmed [] h = tt
trim_right-IsLeftTrimmed (c ∷ cs) h = ground arith

trim_left-id : (t : Text) → IsLeftTrimmed t → trim_left t ≡ t
unfolding trim_left
trim_left-id [] h = refl
trim_left-id (c ∷ cs) h = rw h

pub trim_space_idem : (t : Text) → trim_space (trim_space t) ≡ trim_space t
unfolding trim_space
trim_space_idem t =
    rw
      (trim_left-id (trim_right (trim_left t))
        (trim_right-IsLeftTrimmed (trim_left t) (trim_left-IsLeftTrimmed t)))
      (trim_right_idem (trim_left t))

pub text_eq-eq : (s t : Text) → text_eq s t ≡ true → s ≡ t
unfolding text_eq
text_eq-eq [] [] h = refl
text_eq-eq [] (y ∷ ys) h = cc
text_eq-eq (x ∷ xs) [] h = cc
text_eq-eq (x ∷ xs) (y ∷ ys) h = ground (arith, text_eq-eq xs ys)

pub text_eq_self : (t : Text) → text_eq t t ≡ true
unfolding text_eq
text_eq_self [] = refl
text_eq_self (x ∷ xs) = ground (arith, text_eq_self xs)

pub text_eq_sym : (s t : Text) → text_eq s t ≡ text_eq t s
unfolding text_eq
text_eq_sym [] [] = refl
text_eq_sym [] (y ∷ ys) = refl
text_eq_sym (x ∷ xs) [] = refl
text_eq_sym (x ∷ xs) (y ∷ ys) = ground (arith, text_eq_sym xs ys)
