-- ===== src/Mcp/Required.antt =====
-- Which parameters of a tool of an MCP server are required.
use interact_kit_sdk.Prelude.{
  ◌≡◌, refl, Bool, true, false, ◌&&◌, Option, none, some, List, [], ◌∷◌, arith, if◌then◌else◌,
}
use interact_kit_sdk.Text.{Text, codes}
use interact_kit_sdk.Events.{Parameter}
use interact_kit_sdk.Mcp.{
  printed, list_of, find, end, as_list, text_of, convert_property, lists_text, convert_properties,
  map_of, extract_parameters, entry, as_map, Value, Values, Entries,
}

-- the required names of a schema, in the order of its properties that are maps
unfoldable pub required_names : List Parameter → List Text
required_names [] = []
required_names (p ∷ ps) = if p.required then p.name ∷ required_names ps else required_names ps

abbrev is_map : Value → Bool
is_map (map_of es) = true
is_map _ = false

unfoldable pub listed_maps : Values → Entries → List Text
listed_maps required end = []
listed_maps required (entry name v es) =
    let later = listed_maps required es in
    if is_map v && lists_text (codes name) required then codes name ∷ later else later

convert_properties-required :
    (required : Values) (es : Entries)
    → required_names (convert_properties required es) ≡ listed_maps required es
unfolding required_names convert_properties convert_property listed_maps
convert_properties-required required end = refl
convert_properties-required required (entry name (text_of t) es) =
    convert_properties-required required es
convert_properties-required required (entry name (list_of vs) es) =
    convert_properties-required required es
convert_properties-required required (entry name (map_of m) es) =
    ground (arith, convert_properties-required required es)
convert_properties-required required (entry name (printed t) es) =
    convert_properties-required required es

-- the entries of a value, none where it is no map
abbrev pub entries_of : Option Value → Entries
entries_of (some (map_of es)) = es
entries_of _ = end

required_of :
    (required : Values) (props : Option Value)
    → required_names (elim (as_map props) [ none ↦ [] | some es ↦ convert_properties required es ])
      ≡ listed_maps required (entries_of props)
unfolding required_names listed_maps
required_of required none = refl
required_of required (some (text_of t)) = refl
required_of required (some (list_of vs)) = refl
required_of required (some (map_of es)) = convert_properties-required required es
required_of required (some (printed t)) = refl

-- Of the parameters of a schema, those that are required are, in the order of the properties of the
-- schema, those whose property is a map and whose name stands in the schema's list of required names,
-- whatever else this list holds; and none where the schema has no map of properties.
pub extract_parameters-required :
    (schema : Entries)
    → required_names (extract_parameters schema)
      ≡ listed_maps (as_list (find "required" schema)) (entries_of (find "properties" schema))
unfolding extract_parameters
extract_parameters-required schema =
    required_of (as_list (find "required" schema)) (find "properties" schema)
