-- ===== src/Tests/McpTests.antt =====
-- Tools of MCP servers: handlers/context/mcp_schema.go, handlers/context/mcp_manager.go.
use interact_kit_sdk.Prelude.{◌≡◌, refl, true, none, some, List, [], ◌∷◌, ◌++◌, map, All}
use interact_kit_sdk.Text.{text_eq, join, codes}
use interact_kit_sdk.Mcp.{
  print, print_each, with_enum, other_content, lists_text, nil, printed, text_content, cons,
  convert_property, list_of, convert_properties, end, content_text, map_of, find, text_of, entry,
  extract_parameters, extract_mcp_result, make_tool_id, Entries,
}
use interact_kit_sdk.Mcp.Required.{required_names}
use interact_kit_sdk.Mcp.Manager.{
  ServerConfig, McpTool, Answer, unlisted, listed, connect, connect_one, connect_with,
  build_transport, discover, close, list_tools, convert_all,
}
use interact_kit_sdk.Mcp.Sessions.{opened, opened_by, connect-close}
use interact_kit_sdk.Mcp.Owned.{Reaches, connect-Reaches}
use interact_kit_sdk.Mcp.{convert_mcp_tool}
use mathlib.Core.List.{Perm}
use interact_kit_sdk.Prelude.Dict.{insert}

abbrev city_schema : Entries
city_schema = entry "type" (text_of (codes "string")) (
    entry "description" (text_of (codes "City")) (
      entry "enum" (list_of (cons (text_of (codes "Bonn")) (cons (text_of (codes "Ulm")) nil)))
        end))

abbrev schema : Entries
schema =
    entry "properties"
      (map_of (
        entry "city" (map_of city_schema)
          (entry "odd" (text_of []) (entry "days" (map_of end) end))))
      (entry "required" (list_of (cons (text_of (codes "city")) (cons (printed (codes "1")) nil)))
        end)

only_city : required_names (extract_parameters schema) ≡ codes "city" ∷ []
unfolding required_names extract_parameters find convert_properties convert_property lists_text
    text_eq
only_city = refl

described :
    map (λ p. p.description) (extract_parameters schema)
    ≡ codes "City (one of: Bonn, Ulm)" ∷ [] ∷ []
unfolding extract_parameters find convert_properties convert_property lists_text text_eq with_enum
    print_each print join
described = refl

tool_id : make_tool_id "maps" "find" ≡ "maps_find"
unfolding make_tool_id
tool_id = refl

failed :
    extract_mcp_result (text_content (codes "no") ∷ other_content ∷ []) true
    ≡ codes "Error: no\n[unsupported content type]"
unfolding extract_mcp_result content_text join
failed = refl

-- three servers: one whose tools cannot be listed, one with no transport, and one with two tools
abbrev first_server : ServerConfig
first_server = record {
  server_name = "local";
  tool_prefix = "";
  command = some (record { path = codes "maps"; args = []; env = codes "A=1" ∷ [] });
  sse = none;
  streamable = none;
}

abbrev maps_server : ServerConfig
maps_server = record first_server {
  server_name = "maps";
  tool_prefix = "maps";
  command = none;
  streamable = some (record { url = codes "http://h/mcp"; headers = [] });
}

abbrev find_tool : McpTool
find_tool = record {
  tool_name = "find";
  tool_description = codes "Find";
  input_schema = map_of end;
}

abbrev servers : List (ServerConfig × Answer)
servers =
    (first_server, unlisted 1)
    ∷ (record first_server { command = none }, unlisted 2)
    ∷ (maps_server, listed 3 (find_tool ∷ record find_tool { tool_name = "show" } ∷ []))
    ∷ []

sessions_run :
    let (conns, at_once) = connect [] servers [] in
    (at_once ≡ 1 ∷ [])
    × (close conns ≡ ([], 3 ∷ []))
    × (opened [] servers ≡ 1 ∷ 3 ∷ [])
    × (map (λ t. t.tool_id) (list_tools conns) ≡ "maps_find" ∷ "maps_show" ∷ [])
unfolding connect connect_one connect_with build_transport discover close opened opened_by
    list_tools convert_all convert_mcp_tool insert make_tool_id
sessions_run = (refl, refl, refl, refl)

sessions_example :
    let (conns, at_once) = connect [] servers [] in
    let (left, at_end) = close conns in Perm (at_once ++ at_end) (opened [] servers) × (left ≡ [])
sessions_example = connect-close [] servers

owned_example :
    let (conns, at_once) = connect [] servers [] in All (Reaches conns) (list_tools conns)
owned_example = connect-Reaches [] servers
