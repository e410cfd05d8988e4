-- ===== src/Services/DeepgramStt/Declared.antt =====
-- The format of audio that the query of services/deepgram/stt/stt.go declares.
use interact_kit_sdk.Text.Laws.{text_eq_sym, text_eq-eq}
use interact_kit_sdk.Text.{decimal_onto, decimal, codes, text_eq, Text}
use interact_kit_sdk.Services.DeepgramStt.Query.{
  set_flags, other_kind, unset, text_of, flag_of, number_of, Setting, set_format, SttConfig,
  add_values, set_utterance_end, set_text, build_query, set_options, set_endpointing, set_extra,
  Query, add_value, set_value, values_at,
}
use interact_kit_sdk.Prelude.{
  ◌≡◌, refl, ap, subst, ◌∙◌, inl, inr, Bool, true, false, List, [], ◌∷◌, if◌then◌else◌, Bool-cases,
  All,
}

-- a second test of the same name
absorbed :
    (b : Bool) (x y z : List Text) → (if b then x else y) ≡ (if b then x else if b then z else y)
absorbed true x y z = refl
absorbed false x y z = refl

values_at-set_value :
    (key other value : Text) (q : Query)
    → values_at other (set_value key value q)
      ≡ (if text_eq key other then value ∷ [] else values_at other q)
unfolding values_at set_value
values_at-set_value key other value [] = refl
values_at-set_value key other value ((k, vs) ∷ q) = elim (Bool-cases (text_eq k key)) [
  | inl same ↦
      rw (same, text_eq-eq k key same)
        (absorbed (text_eq key other) (value ∷ []) (values_at other q) vs)
  | inr differs ↦ elim (Bool-cases (text_eq k other)) [
    | inr later ↦ rw (differs, later) (values_at-set_value key other value q)
    | inl here ↦
        let apart : text_eq key other ≡ false =
          subst (λ n. text_eq key n ≡ false) (text_eq-eq k other here)
            (text_eq_sym key k ∙ differs) in
        rw (differs, here, apart) refl
  ]
]

values_at-add_value :
    (key other value : Text) (q : Query)
    → text_eq key other ≡ false
    → values_at other (add_value key value q) ≡ values_at other q
unfolding values_at add_value
values_at-add_value key other value [] h = rw h refl
values_at-add_value key other value ((k, vs) ∷ q) h = elim (Bool-cases (text_eq k key)) [
  | inl same ↦ rw (same, text_eq-eq k key same, h) refl
  | inr differs ↦
      rw differs
        (ap (λ z. if text_eq k other then vs else z) (values_at-add_value key other value q h))
]

-- a name that is not that of the other
abbrev IsOther : Text → Text → Type 0
IsOther other key = text_eq key other ≡ false

module _ (other : Text) where
  set_value-other :
      (key value : Text) (q : Query)
      → IsOther other key
      → values_at other (set_value key value q) ≡ values_at other q
  set_value-other key value q h = values_at-set_value key other value q ∙ rw h refl

  set_text-other :
      (key t : Text) (q : Query)
      → IsOther other key
      → values_at other (set_text key t q) ≡ values_at other q
  unfolding set_text
  set_text-other key [] q h = refl
  set_text-other key (x ∷ xs) q h = set_value-other key (x ∷ xs) q h

  add_values-other :
      (key : Text) (vs : List Text) (q : Query)
      → IsOther other key
      → values_at other (add_values key vs q) ≡ values_at other q
  unfolding add_values
  add_values-other key [] q h = refl
  add_values-other key (v ∷ vs) q h =
      add_values-other key vs (add_value key v q) h ∙ values_at-add_value key other v q h

  set_endpointing-other :
      (v : Setting) (q : Query)
      → IsOther other (codes "endpointing")
      → values_at other (set_endpointing v q) ≡ values_at other q
  unfolding set_endpointing
  set_endpointing-other unset q h = refl
  set_endpointing-other other_kind q h = refl
  set_endpointing-other (number_of n) q h = set_value-other _ _ q h
  set_endpointing-other (flag_of b) q h = set_value-other _ _ q h
  set_endpointing-other (text_of t) q h = set_value-other _ _ q h

  set_utterance_end-other :
      (v : Setting) (q : Query)
      → IsOther other (codes "utterance_end_ms")
      → values_at other (set_utterance_end v q) ≡ values_at other q
  unfolding set_utterance_end
  set_utterance_end-other unset q h = refl
  set_utterance_end-other other_kind q h = refl
  set_utterance_end-other (number_of n) q h = set_value-other _ _ q h
  set_utterance_end-other (flag_of b) q h = refl
  set_utterance_end-other (text_of t) q h = set_value-other _ _ q h

  set_extra-other :
      (extra : List (Text × Text)) (q : Query)
      → All (λ (key, value). IsOther other key) extra
      → values_at other (set_extra extra q) ≡ values_at other q
  unfolding set_extra
  set_extra-other [] q h = refl
  set_extra-other ((key, value) ∷ extra) q (h, hs) =
      set_extra-other extra (set_value key value q) hs ∙ set_value-other key value q h

  -- the names of the options after the format
  abbrev OtherOptions : Type 0
  OtherOptions = All (IsOther other) (
      codes "version"
      ∷ codes "callback_method"
      ∷ codes "callback"
      ∷ codes "tag"
      ∷ codes "search"
      ∷ codes "keyterm"
      ∷ codes "keywords"
      ∷ codes "utterance_end_ms"
      ∷ codes "endpointing"
      ∷ [])

  set_options-other :
      (c : SttConfig) (q : Query)
      → OtherOptions
      → values_at other (set_options c q) ≡ values_at other q
  unfolding set_options
  set_options-other c q (h1, (h2, (h3, (h4, (h5, (h6, (h7, (h8, (h9, _))))))))) =
      set_text-other _ c.version _ h1
      ∙ set_text-other _ c.callback_method _ h2
      ∙ set_text-other _ c.callback _ h3
      ∙ add_values-other _ c.tag _ h4
      ∙ add_values-other _ c.search _ h5
      ∙ add_values-other _ c.keyterms _ h6
      ∙ add_values-other _ c.keywords _ h7
      ∙ set_utterance_end-other c.utterance_end_ms _ h8
      ∙ set_endpointing-other c.endpointing q h9

-- an extra parameter that does not replace one of the format
abbrev pub IsHarmless : Text × Text → Type 0
IsHarmless (key, value) =
    IsOther (codes "encoding") key
    × IsOther (codes "sample_rate") key
    × IsOther (codes "channels") key

harmless :
    (extra : List (Text × Text))
    → All IsHarmless extra
    → All (λ (key, value). IsOther (codes "encoding") key) extra
      × All (λ (key, value). IsOther (codes "sample_rate") key) extra
      × All (λ (key, value). IsOther (codes "channels") key) extra
harmless [] h = (tt, tt, tt)
harmless ((key, value) ∷ extra) ((e, s, c), h) =
    let (es, ss, cs) = harmless extra h in ((e, es), (s, ss), (c, cs))

-- Whatever the rest of the configuration and the query of the base URL, where no extra parameter
-- has the name of one of these: the query declares audio of the encoding `linear16`, at the rate
-- 16000 and with one channel, each once.
pub build_query-format :
    (c : SttConfig) (q : Query)
    → All IsHarmless c.extra
    → (values_at (codes "encoding") (build_query c q) ≡ codes "linear16" ∷ [])
      × (values_at (codes "sample_rate") (build_query c q) ≡ codes "16000" ∷ [])
      × (values_at (codes "channels") (build_query c q) ≡ codes "1" ∷ [])
unfolding build_query set_format text_eq decimal decimal_onto
build_query-format c q h =
    let (e, s, n) = harmless c.extra h in
    let first =
      set_text (codes "redact") c.redact (
        set_flags c
          (set_text (codes "language") c.language (set_text (codes "model") c.model q))) in
    let second = set_value (codes "encoding") (codes "linear16") first in
    let third = set_value (codes "sample_rate") (decimal 16000) second in
    let fourth = set_value (codes "channels") (decimal 1) third in
    (
      set_extra-other (codes "encoding") c.extra (set_options c fourth) e
          ∙ set_options-other (codes "encoding") c fourth
              (refl, (refl, (refl, (refl, (refl, (refl, (refl, (refl, (refl, tt)))))))))
          ∙ set_value-other (codes "encoding") (codes "channels") (decimal 1) third refl
          ∙ set_value-other (codes "encoding") (codes "sample_rate") (decimal 16000) second refl
          ∙ values_at-set_value (codes "encoding") (codes "encoding") (codes "linear16") first,
      set_extra-other (codes "sample_rate") c.extra (set_options c fourth) s
          ∙ set_options-other (codes "sample_rate") c fourth
              (refl, (refl, (refl, (refl, (refl, (refl, (refl, (refl, (refl, tt)))))))))
          ∙ set_value-other (codes "sample_rate") (codes "channels") (decimal 1) third refl
          ∙ values_at-set_value (codes "sample_rate") (codes "sample_rate") (decimal 16000) second,
      set_extra-other (codes "channels") c.extra (set_options c fourth) n
          ∙ set_options-other (codes "channels") c fourth
              (refl, (refl, (refl, (refl, (refl, (refl, (refl, (refl, (refl, tt)))))))))
          ∙ values_at-set_value (codes "channels") (codes "channels") (decimal 1) third,
    )
