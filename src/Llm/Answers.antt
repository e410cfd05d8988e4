-- ===== src/Llm/Answers.antt =====
-- How handlers/llm/llm_handler.go decodes what a service answers: `parseFillerResponse` and
-- `parseConfirmBridgeResponse`.
use interact_kit_sdk.Prelude.Dict.{lookup}
use interact_kit_sdk.Prelude.{
  String, Bool, false, ◌||◌, Option, none, some, List, [], if◌then◌else◌,
}
use interact_kit_sdk.Text.{Text, trim_space, is_empty}

-- A value of the JSON that a service answers. Numbers, lists and objects are `other`.
pub data Json : Type 0 where
  text_value : Text → Json
  bool_value : Bool → Json
  null_value other : Json

infixl 5 ◌>>=◌
abbrev pub ◌>>=◌ {ℓ κ} : {A : Type ℓ} {B : Type κ} → Option A → (A → Option B) → Option B
o >>= f = elim o [ none ↦ none | some a ↦ f a ]

-- Decoding into a field of the payload: `none` is an error, and a key that is missing or null
-- leaves the zero value. A key that differs from the field's by case only is taken as missing.
unfoldable pub text_field : String → List (String × Json) → Option Text
text_field key raw = elim (lookup key raw) [
  | none ↦ some []
  | some value ↦ elim value [ text_value t ↦ some t | null_value ↦ some [] | _ ↦ none ]
]

unfoldable pub bool_field : String → List (String × Json) → Option Bool
bool_field key raw = elim (lookup key raw) [
  | none ↦ some false
  | some value ↦ elim value [ bool_value b ↦ some b | null_value ↦ some false | _ ↦ none ]
]

-- the filler, and whether to skip it
unfoldable pub parse_filler_response : List (String × Json) → Option (Text × Bool)
unfolding text_field bool_field
parse_filler_response raw = do
  filler ← text_field "filler" raw
  skip ← bool_field "skip" raw
  prediction ← text_field "prediction" raw
  some (trim_space filler, skip || is_empty (trim_space filler))

unfoldable pub parse_confirm_bridge_response : List (String × Json) → Text → Text
parse_confirm_bridge_response raw fallback = elim (lookup "text" raw) [
  | none ↦ fallback
  | some value ↦ elim value [
    | text_value t ↦ if is_empty (trim_space t) then fallback else trim_space t
    | _ ↦ fallback
  ]
]
