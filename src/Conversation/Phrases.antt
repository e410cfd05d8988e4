-- ===== src/Conversation/Phrases.antt =====
-- handlers/context/variable_phrases.go: how a value is read back to the caller. A byte of ASCII in
-- UTF-8 is a code point, so the index of a byte is that of the code point.
use interact_kit_sdk.Prelude.{
  ℕ, zero, suc, ◌-◌, ◌&&◌, ◌||◌, Option, none, some, List, [], ◌∷◌, ◌++◌, ◌==◌, if◌then◌else◌,
  length, get_elem?,
}
use interact_kit_sdk.Text.{Text, codes, has_prefix, trim_space, is_empty}

abbrev pub variable_confirm_phrases : List Text
variable_confirm_phrases =
    codes "Ok, so I've got your %s as %s — is that right?"
    ∷ codes "Alright, I have your %s down as %s — does that sound correct?"
    ∷ codes "Got it — just to confirm, your %s is %s — is that right?"
    ∷ codes "Let me read that back: %s, %s — is that accurate?"
    ∷ codes "Ok, so your %s is %s — did I get that right?"
    ∷ codes "I've noted %s as %s — just confirming that's correct?"
    ∷ codes "Just to double-check — %s, %s — does that sound right?"
    ∷ codes "I've got your %s as %s — just want to confirm that's right."
    ∷ codes "Alright, so I'm putting your %s as %s — is that ok?"
    ∷ codes "Let me verify — %s: %s — is that what you said?"
    ∷ codes "So I've got %s, %s — is that correct?"
    ∷ codes "Ok, I have your %s as %s — does that sound right to you?"
    ∷ codes "Just confirming — %s is %s — is that accurate?"
    ∷ codes "I've got your %s down as %s — is that good?"
    ∷ codes "Alright, so %s — %s — is that right?"
    ∷ codes "Got that — your %s is %s — just want to make sure I got that right."
    ∷ codes "So %s: %s — did I catch that correctly?"
    ∷ codes "Ok, I have %s as %s — just checking that's right."
    ∷ codes "I've noted your %s as %s — is that correct?"
    ∷ codes "Alright, %s: %s — does that sound right?"
    ∷ []

-- `fmt.Sprintf` of a template whose verbs are all `%s`
unfoldable pub fill : Text → List Text → Text
fill [] args = []
fill (c ∷ []) args = c ∷ []
fill (c ∷ d ∷ cs) [] = c ∷ d ∷ cs
fill (c ∷ d ∷ cs) (a ∷ args) =
    let next = a ++ fill cs args in
    let more = c ∷ fill (d ∷ cs) (a ∷ args) in if c == b'%' && d == b's' then next else more

-- `strings.ReplaceAll`, where `skip` more code points belong to the last match
unfoldable pub replace_from : ℕ → Text → Text → Text → Text
replace_from skip old new [] = []
replace_from (suc skip) old new (c ∷ cs) = replace_from skip old new cs
replace_from zero old new (c ∷ cs) =
    let matched = new ++ replace_from (length old - 1) old new cs in
    let other = c ∷ replace_from zero old new cs in
    if has_prefix (c ∷ cs) old then matched else other

unfoldable pub replace_all : Text → Text → Text → Text
unfolding replace_from
replace_all old new t = replace_from zero old new t

-- the text before the first opening bracket, if there is one
unfoldable pub before_bracket : Text → Option Text
before_bracket [] = none
before_bracket (c ∷ cs) =
    let later = before_bracket cs in
    if c == b'(' then some [] else elim later [ none ↦ none | some t ↦ some (c ∷ t) ]

-- `strings.TrimRight(t, ".,;:")`
unfoldable pub trim_punctuation : Text → Text
trim_punctuation [] = []
trim_punctuation (c ∷ cs) = elim (trim_punctuation cs) [
  | [] ↦ if c == b'.' || c == b',' || c == b';' || c == b':' then [] else c ∷ []
  | d ∷ ds ↦ c ∷ d ∷ ds
]

unfoldable pub desc_to_speech_label : Text → Text
unfolding before_bracket trim_punctuation
desc_to_speech_label description = elim (before_bracket description) [
  | none ↦ trim_punctuation description
  | some t ↦ trim_punctuation (if is_empty t then description else trim_space t)
]

-- `randomVariableConfirmPhrase`; `pick` is what `rand.Intn` returns
unfoldable pub random_variable_confirm_phrase : ℕ → Text → Text → List Text → Text
unfolding fill replace_all desc_to_speech_label
random_variable_confirm_phrase pick description value custom =
    if is_empty custom
    then elim (get_elem? variable_confirm_phrases pick) [
      | none ↦ []
      | some t ↦ fill t (desc_to_speech_label description ∷ value ∷ [])
    ]
    else elim (get_elem? custom pick) [
      | none ↦ []
      | some t ↦ replace_all (codes "{{value}}") value t
    ]
