-- ===== src/Mcp.antt =====
-- The translation of tools and results of an MCP server: handlers/context/mcp_schema.go, and
-- `makeToolID` and `extractMCPResult` of handlers/context/mcp_manager.go. Sessions are
-- third-party code: what a server answers is an input. The entries of a map come in any order, that
-- of the list, as a `range` over a Go map may take them.
pub mod Required
pub mod Manager
pub mod Sessions
pub mod Owned
use interact_kit_sdk.Events.{LlmTool, ParameterType, Parameter}
use interact_kit_sdk.Prelude.{
  String, Bool, false, ◌||◌, Option, none, some, List, [], ◌∷◌, ◌++◌, map, str_eq, if◌then◌else◌,
}
use Prim.Native.String.{◌++◌ as str_append}
use interact_kit_sdk.Text.{text_eq, join, is_empty, Text, codes}
use interact_kit_sdk.Events

-- A decoded JSON value. A value that is none of these kinds is kept as `%v` prints it.
mutual
  pub data Value : Type 0 where
    text_of : Text → Value
    list_of : Values → Value
    map_of : Entries → Value
    printed : Text → Value

  pub data Values : Type 0 where
    nil : Values
    cons : Value → Values → Values

  pub data Entries : Type 0 where
    end : Entries
    entry : String → Value → Entries → Entries

unfoldable pub find : String → Entries → Option Value
find key end = none
find key (entry k v es) = let later = find key es in if str_eq k key then some v else later

-- type assertions, with `none` where they fail
abbrev pub as_text : Option Value → Option Text
as_text (some (text_of t)) = some t
as_text _ = none

abbrev pub as_map : Option Value → Option Entries
as_map (some (map_of es)) = some es
as_map _ = none

-- a list, or the empty one where the assertion fails
abbrev pub as_list : Option Value → Values
as_list (some (list_of vs)) = vs
as_list _ = nil

-- `%v`, for which the entries of a map stand in the order of their keys, as fmt sorts them
unfoldable mutual
  pub print : Value → Text
  print (text_of t) = t
  print (list_of vs) = codes "[" ++ (print_all vs ++ codes "]")
  print (map_of es) = codes "map[" ++ (print_entries es ++ codes "]")
  print (printed t) = t

  pub print_all : Values → Text
  print_all nil = []
  print_all (cons v nil) = print v
  print_all (cons v (cons w vs)) = print v ++ (codes " " ++ print_all (cons w vs))

  pub print_entries : Entries → Text
  print_entries end = []
  print_entries (entry k v end) = codes k ++ (codes ":" ++ print v)
  print_entries (entry k v (entry l w es)) =
      codes k ++ (codes ":" ++ (print v ++ (codes " " ++ print_entries (entry l w es))))

unfoldable pub map_schema_type : Entries → ParameterType
unfolding find
map_schema_type schema = elim (as_text (find "type" schema)) [
  | none ↦ ParameterType.string
  | some t ↦
      if text_eq t (codes "string")
      then ParameterType.string
      else if text_eq t (codes "integer") || text_eq t (codes "number")
      then ParameterType.number
      else if text_eq t (codes "boolean")
      then ParameterType.boolean
      else if text_eq t (codes "object")
      then ParameterType.object
      else ParameterType.string
]

-- the first example, if there is one
unfoldable pub first_example : Values → Text
unfolding print
first_example nil = []
first_example (cons v vs) = print v

unfoldable pub print_each : Values → List Text
unfolding print
print_each nil = []
print_each (cons v vs) = print v ∷ print_each vs

-- the description with the allowed values after it
unfoldable pub with_enum : Text → Values → Text
unfolding print_each
with_enum description nil = description
with_enum description (cons v vs) =
    description
    ++ ((if is_empty description then [] else codes " ")
        ++ (codes "(one of: " ++ (join (codes ", ") (print_each (cons v vs)) ++ codes ")")))

unfoldable pub convert_property : String → Entries → Bool → Parameter
unfolding find map_schema_type first_example with_enum
convert_property name schema required =
    let described : Text = elim (as_text (find "description" schema)) [ none ↦ [] | some t ↦ t ] in
    record {
      name = codes name;
      description = with_enum described (as_list (find "enum" schema));
      required = required;
      example = first_example (as_list (find "examples" schema));
      type = map_schema_type schema;
    }

-- Is a text among those of a list, whose other values are skipped?
unfoldable pub lists_text : Text → Values → Bool
lists_text t nil = false
lists_text t (cons v vs) = elim (as_text (some v)) [
  | none ↦ lists_text t vs
  | some u ↦ text_eq t u || lists_text t vs
]

-- the loop over the properties, which skips those that are no maps
unfoldable pub convert_properties : Values → Entries → List Parameter
unfolding convert_property lists_text
convert_properties required end = []
convert_properties required (entry name v es) = elim (as_map (some v)) [
  | none ↦ convert_properties required es
  | some schema ↦
      convert_property name schema (lists_text (codes name) required)
      ∷ convert_properties required es
]

unfoldable pub extract_parameters : Entries → List Parameter
unfolding find convert_properties
extract_parameters schema = elim (as_map (find "properties" schema)) [
  | none ↦ []
  | some props ↦ convert_properties (as_list (find "required" schema)) props
]

-- `convertMCPTool`, of a description and a schema
unfoldable pub convert_mcp_tool : String → Text → Value → LlmTool
unfolding extract_parameters
convert_mcp_tool tool_id description schema = record {
  name = tool_id;
  tool_id = tool_id;
  description = description;
  parameters = elim (as_map (some schema)) [ none ↦ [] | some s ↦ extract_parameters s ];
  server_url = "";
}

unfoldable pub make_tool_id : String → String → String
make_tool_id prefix tool_name =
    if str_eq prefix "" then tool_name else str_append prefix (str_append "_" tool_name)

-- a part of a result
pub data Content : Type 0 where
  text_content image_content audio_content : Text → Content
  other_content : Content

unfoldable pub content_text : Content → Text
content_text (text_content t) = t
content_text (image_content mime) = codes "[Image: " ++ (mime ++ codes "]")
content_text (audio_content mime) = codes "[Audio: " ++ (mime ++ codes "]")
content_text other_content = codes "[unsupported content type]"

unfoldable pub extract_mcp_result : List Content → Bool → Text
unfolding content_text
extract_mcp_result parts is_error =
    let text = join (10 ∷ []) (map content_text parts) in
    if is_error then codes "Error: " ++ text else text
