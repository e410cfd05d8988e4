-- ===== src/Services/OpenAi/Requests.antt =====
-- The requests of services/openai/llm/llm.go against the conversation and the tools that they are
-- built from.
use interact_kit_sdk.Text.Laws.{text_eq_sym, text_eq-eq}
use interact_kit_sdk.Mcp.{text_of, find, Entries, map_schema_type, convert_property}
use interact_kit_sdk.Audio.Bytes.{Bytes}
use interact_kit_sdk.Text.{codes, text_eq, Text}
use interact_kit_sdk.Events.{ParameterType, LlmTool, Parameter}
use interact_kit_sdk.Services.OpenAi.{
  convert_parameter_type, names_or_none, Schema, FunctionTool, convert_tools, convert_parameters,
  unknown_media, image_jpeg, image_png, video_webm, video_mp4, audio_mp3, audio_wav, audio_pcm,
  codes, MediaType, set_property, convert_media_type, convert_parameter, text_eq, Media, Property,
  convert_media_to_url,
}
use interact_kit_sdk.Prelude.{
  ℕ, ◌<◌, String, ◌≡◌, refl, sym, ap, subst, ◌∙◌, inl, inr, Bool, true, false, ◌&&◌, ◌||◌, Option,
  none, some, List, [], ◌∷◌, ◌++◌, append-nil, append_assoc, arith, leb, ◌==◌, if◌then◌else◌,
  Bool-cases,
}

-- Is a byte a letter of base64?
unfoldable pub is_base64 : ℕ → Bool
is_base64 c =
    (leb b'A' c && leb c b'Z')
    || (leb b'a' c && leb c b'z')
    || (leb b'0' c && leb c b'9')
    || c == b'+'
    || c == b'/'
    || c == b'='

unfoldable pub all_base64 : Bytes → Bool
unfolding is_base64
all_base64 [] = true
all_base64 (b ∷ bs) = is_base64 b && all_base64 bs

-- what stands after the comma of a data URL
unfoldable pub after_comma : Bytes → Bytes
after_comma [] = []
after_comma (b ∷ bs) = if b == b',' then bs else after_comma bs

after_comma-url :
    (t : MediaType) (d : Bytes)
    → after_comma (codes "data:" ++ (convert_media_type t ++ (codes ";base64," ++ d))) ≡ d
unfolding after_comma convert_media_type
after_comma-url audio_pcm d = refl
after_comma-url audio_wav d = refl
after_comma-url audio_mp3 d = refl
after_comma-url video_mp4 d = refl
after_comma-url video_webm d = refl
after_comma-url image_png d = refl
after_comma-url image_jpeg d = refl
after_comma-url unknown_media d = refl

not_base64 : (b : ℕ) → 127 < b → is_base64 b ≡ false
unfolding is_base64
not_base64 b h = ground arith

-- The data of an image whose first byte is over 127, as that of a PNG or JPEG file is, stands in its
-- URL as it is, which is not base64.
pub convert_media_to_url-not_base64 :
    (m : Media) (b : ℕ) (bs : Bytes)
    → m.payload ≡ b ∷ bs
    → 127 < b
    → (after_comma (convert_media_to_url m) ≡ m.payload)
      × (all_base64 (after_comma (convert_media_to_url m)) ≡ false)
unfolding convert_media_to_url after_comma all_base64
convert_media_to_url-not_base64 m b bs h l =
    let same = after_comma-url m.media_type m.payload in (same, rw (same, h, not_base64 b l) refl)

-- the names of the parameters that are required
unfoldable pub required_of : List Parameter → List Text
required_of [] = []
required_of (p ∷ ps) = if p.required then p.name ∷ required_of ps else required_of ps

unfoldable pub property_at : Text → List (Text × Property) → Option Property
property_at name [] = none
property_at name ((first, p) ∷ ps) =
    let later = property_at name ps in if text_eq first name then some p else later

-- the last parameter of a name
unfoldable pub last_of : Text → List Parameter → Option Property → Option Property
last_of name [] found = found
last_of name (p ∷ ps) found =
    last_of name ps (if text_eq p.name name then some (convert_parameter p) else found)

-- a second test of the same name
absorbed :
    (b : Bool) (x y z : Option Property)
    → (if b then x else y) ≡ (if b then x else if b then z else y)
absorbed true x y z = refl
absorbed false x y z = refl

property_at-set_property :
    (name other : Text) (p : Property) (ps : List (Text × Property))
    → property_at other (set_property name p ps)
      ≡ (if text_eq name other then some p else property_at other ps)
unfolding property_at set_property
property_at-set_property name other p [] = refl
property_at-set_property name other p ((first, old) ∷ ps) =
    let ih = property_at-set_property name other p ps in
    elim (Bool-cases (text_eq first name)) [
      | inl same ↦
          rw (same, text_eq-eq first name same)
            (absorbed (text_eq name other) (some p) (property_at other ps) (some old))
      | inr differs ↦ elim (Bool-cases (text_eq first other)) [
        | inr later ↦ rw (differs, later) ih
        | inl here ↦
            let apart : text_eq name other ≡ false =
              subst (λ n. text_eq name n ≡ false) (text_eq-eq first other here)
                (text_eq_sym name first ∙ differs) in
            rw (differs, here, apart) refl
      ]
    ]

convert_parameters-all :
    (name : Text) (ps : List Parameter) (props : List (Text × Property)) (required : List Text)
    → let (props', required') = convert_parameters ps props required in
      (property_at name props' ≡ last_of name ps (property_at name props))
      × (required' ≡ required ++ required_of ps)
unfolding convert_parameters last_of required_of
convert_parameters-all name [] props required = (refl, sym (append-nil required))
convert_parameters-all name (p ∷ ps) props required =
    let (found, listed) =
      convert_parameters-all name ps (set_property p.name (convert_parameter p) props)
        (if p.required then required ++ p.name ∷ [] else required) in
    (
      found
          ∙ ap (last_of name ps) (property_at-set_property p.name name (convert_parameter p) props),
      listed ∙ elim (Bool-cases p.required) [
        | inl needed ↦ rw needed (append_assoc required (p.name ∷ []) (required_of ps))
        | inr optional ↦ rw optional refl
      ],
    )

-- the schema of the first tool
abbrev pub first_schema : List FunctionTool → Option Schema
first_schema [] = none
first_schema (f ∷ fs) = some f.schema

-- The schema that is sent for a tool: at each name it has the last parameter of that name, its type
-- and description converted, and no other property; it lists the names of the required parameters
-- in their order, and has no list where none is required.
pub convert_tools-schema :
    (t : LlmTool) (ts : List LlmTool) (name : Text)
    → (s : Schema) × (first_schema (convert_tools (t ∷ ts)) ≡ some s)
      × (property_at name s.properties ≡ last_of name t.parameters none)
      × (s.required_names ≡ names_or_none (required_of t.parameters))
unfolding convert_tools property_at
convert_tools-schema t ts name =
    let (found, listed) = convert_parameters-all name t.parameters [] [] in
    (
      record {
        properties = (convert_parameters t.parameters [] []).0;
        required_names = names_or_none (convert_parameters t.parameters [] []).1;
      },
      refl,
      found,
      ap names_or_none listed,
    )

map_schema_type-number :
    (schema : Entries)
    → find "type" schema ≡ some (text_of (codes "number"))
    → map_schema_type schema ≡ ParameterType.number
unfolding map_schema_type text_eq
map_schema_type-number schema h = rw (h, map_schema_type) refl

-- A property of an MCP tool whose schema has the type `number` is sent as an `integer`.
pub number-as-integer :
    (name : String) (schema : Entries) (required : Bool)
    → find "type" schema ≡ some (text_of (codes "number"))
    → (convert_parameter (convert_property name schema required)).property_type ≡ codes "integer"
unfolding convert_parameter convert_property
number-as-integer name schema required h =
    ap convert_parameter_type (map_schema_type-number schema h)
