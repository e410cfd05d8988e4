-- ===== src/Prelude/Dict.antt =====
-- Go maps with string keys, as association lists. It models no code of its own.
use Prim.Native.String.{String}
use mathlib.Core.Path.{◌≡◌, refl}
use mathlib.Core.List.{List, [], ◌∷◌}
use mathlib.Core.Option.{Option, none, some}
use native.Mathlib.Omega.{arith}
use text.Mathlib.Text.{◌==◌ as str_eq}
use text.Mathlib.TextEquality.{eq_iff}
use text.Mathlib.TextPositions.{eq_refl}
use interact_kit_sdk.Prelude.Tests.{if◌then◌else◌}

module _ {ℓ} {A : Type ℓ} where
  unfoldable pub insert : String → A → List (String × A) → List (String × A)
  insert key new [] = (key, new) ∷ []
  insert key new ((first, old) ∷ rest) =
      let later = insert key new rest in
      if str_eq first key then (key, new) ∷ rest else (first, old) ∷ later

  unfoldable pub lookup : String → List (String × A) → Option A
  lookup key [] = none
  lookup key ((first, value) ∷ rest) =
      let later = lookup key rest in if str_eq first key then some value else later

  pub lookup-insert :
      (key other : String) (new : A) (dict : List (String × A))
      → lookup other (insert key new dict)
        ≡ (if str_eq key other then some new else lookup other dict)
  unfolding lookup insert
  lookup-insert key other new [] = refl
  lookup-insert key other new ((first, old) ∷ rest) =
      let same = λ (a b : String). eq_iff a b in
      ground
        (arith, lookup-insert key other new rest, same first other, same first key, same key other)

  pub lookup-insert_self :
      (key : String) (new : A) (dict : List (String × A))
      → lookup key (insert key new dict) ≡ some new
  lookup-insert_self key new dict = simp (lookup-insert, eq_refl)
