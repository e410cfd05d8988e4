-- ===== src/Text.antt =====
-- Texts as Go's strings of Unicode characters: the functions of package strings that the handlers
-- call. A text is the list of its code points, so valid UTF-8 is all that it can hold.
pub mod Laws
pub mod Fields
pub mod Words
use Prim.Native.Char.{code}
use interact_kit_sdk.Prelude.{
  ℕ, zero, suc, ◌+◌, ◌/◌, ◌%◌, String, Bool, true, false, ◌&&◌, ◌||◌, List, [], ◌∷◌, ◌++◌, map, ltb,
  leb, ◌==◌, if◌then◌else◌,
}

abbrev pub Text : Type 0
Text = List ℕ

-- `unicode.IsSpace`
unfoldable pub is_space : ℕ → Bool
is_space c =
    (leb 9 c && leb c 13)
    || c == 32
    || c == 0x85
    || c == 0xa0
    || c == 0x1680
    || (leb 0x2000 c && leb c 0x200a)
    || c == 0x2028
    || c == 0x2029
    || c == 0x202f
    || c == 0x205f
    || c == 0x3000

-- `strings.TrimLeftFunc(s, unicode.IsSpace)`
unfoldable pub trim_left : Text → Text
trim_left [] = []
trim_left (c ∷ cs) = if is_space c then trim_left cs else c ∷ cs

-- the text without its trailing spaces
unfoldable pub trim_right : Text → Text
trim_right [] = []
trim_right (c ∷ cs) = elim (trim_right cs) [
  | [] ↦ if is_space c then [] else c ∷ []
  | d ∷ ds ↦ c ∷ d ∷ ds
]

-- `strings.TrimSpace`
unfoldable pub trim_space : Text → Text
trim_space t = trim_right (trim_left t)

-- The words of a text whose last word, so far, is `word`.
unfoldable pub fields_from : Text → Text → List Text
fields_from [] [] = []
fields_from (w ∷ ws) [] = (w ∷ ws) ∷ []
fields_from [] (c ∷ cs) = fields_from (if is_space c then [] else c ∷ []) cs
fields_from (w ∷ ws) (c ∷ cs) =
    let more = fields_from ((w ∷ ws) ++ c ∷ []) cs in
    let next = (w ∷ ws) ∷ fields_from [] cs in if is_space c then next else more

-- `strings.Fields`
unfoldable pub fields : Text → List Text
unfolding fields_from
fields t = fields_from [] t

-- the bytes of a code point in UTF-8
unfoldable pub rune_len : ℕ → ℕ
rune_len c = if ltb c 0x80 then 1 else if ltb c 0x800 then 2 else if ltb c 0x10000 then 3 else 4

-- `len`, which counts bytes
unfoldable pub byte_len : Text → ℕ
unfolding rune_len
byte_len [] = 0
byte_len (c ∷ cs) = rune_len c + byte_len cs

-- `strings.HasPrefix`
unfoldable pub has_prefix : Text → Text → Bool
has_prefix _ [] = true
has_prefix [] (p ∷ ps) = false
has_prefix (c ∷ cs) (p ∷ ps) = c == p && has_prefix cs ps

-- `strings.Contains`, and `strings.Index(s, sub) != -1`
unfoldable pub contains : Text → Text → Bool
unfolding has_prefix
contains [] sub = has_prefix [] sub
contains (c ∷ cs) sub = has_prefix (c ∷ cs) sub || contains cs sub

-- `==` on texts
unfoldable pub text_eq : Text → Text → Bool
text_eq [] [] = true
text_eq (x ∷ xs) (y ∷ ys) = x == y && text_eq xs ys
text_eq _ _ = false

-- a literal of the source as its code points
abbrev pub codes : String → Text
codes String.[] = []
codes (String.◌∷◌ c s) = code c ∷ codes s

-- a literal of several lines
abbrev pub lines_of : List String → Text
lines_of [] = []
lines_of (l ∷ []) = codes l
lines_of (l ∷ m ∷ ls) = codes l ++ 10 ∷ lines_of (m ∷ ls)

-- `strings.Join`
unfoldable pub join : Text → List Text → Text
join sep [] = []
join sep (t ∷ []) = t
join sep (t ∷ u ∷ ts) = t ++ (sep ++ join sep (u ∷ ts))

-- `strings.ReplaceAll(s, "_", " ")`
unfoldable pub spaced : Text → Text
spaced = map (λ c. if c == b'_' then b' ' else c)

-- the digits of a number before `rest`: `%d`
unfoldable pub decimal_onto : ℕ → ℕ → Text → Text
decimal_onto zero n rest = rest
decimal_onto (suc fuel) n rest =
    let digits = (48 + n % 10) ∷ rest in
    let more = decimal_onto fuel (n / 10) digits in if ltb n 10 then digits else more

unfoldable pub decimal : ℕ → Text
unfolding decimal_onto
decimal n = decimal_onto (suc n) n []

abbrev pub is_empty {ℓ} : {A : Type ℓ} → List A → Bool
is_empty [] = true
is_empty (x ∷ xs) = false
