-- ===== src/Task/Tools.antt =====
-- The tool list of handlers/context/dynamic_context_manager.go: `rebuildToolsLocked` and
-- `makeSetTool`.
use Prim.Native.String.{◌++◌ as str_append}
use interact_kit_sdk.Prelude.{
  String, Bool, true, false, not, ◌||◌, none, some, List, [], ◌∷◌, ◌++◌, map, if◌then◌else◌,
}
use interact_kit_sdk.Prelude.Dict.{lookup}
use interact_kit_sdk.Text.{Text, codes, join, spaced, is_empty}
use interact_kit_sdk.Events.{LlmTool, Parameter}
use interact_kit_sdk.Events
use interact_kit_sdk.Task.Config.{TaskVariable, TaskDef, TaskGroupConfig, mem}

-- values by variable name, and those by task
abbrev pub Values : Type 0
Values = List (String × Text)

abbrev pub Collected : Type 0
Collected = List (String × Values)

-- `collectedVars[id]`, the nil map if there is none
unfoldable pub values_of : String → Collected → Values
values_of id c = elim (lookup id c) [ none ↦ [] | some vs ↦ vs ]

unfoldable pub is_collected : String → Values → Bool
is_collected name vs = elim (lookup name vs) [ none ↦ false | some _ ↦ true ]

unfoldable pub set_tool_id : String → String
set_tool_id name = str_append "set_" name

unfoldable pub make_set_tool : TaskVariable → LlmTool
make_set_tool v =
    let hint =
      if not (is_empty v.enum)
      then v.description
        ++ (codes " (one of: " ++ (join (codes ", ") (map spaced v.enum) ++ codes ")"))
      else if not (is_empty v.example)
      then v.description ++ (codes " (e.g. " ++ (v.example ++ codes ")"))
      else v.description in
    record {
      name = set_tool_id v.name;
      tool_id = set_tool_id v.name;
      description = v.description;
      parameters =
          record {
            name = codes "value";
            description = hint;
            required = true;
            example = v.example;
            type = Events.ParameterType.string;
          }
          ∷ [];
      server_url = "";
    }

-- the loop over the global tools: those that are registered
unfoldable pub global_tools : List (String × LlmTool) → List String → List LlmTool
global_tools registry [] = []
global_tools registry (id ∷ ids) = elim (lookup id registry) [
  | some t ↦ t ∷ global_tools registry ids
  | none ↦ global_tools registry ids
]

-- The loops over the visible tasks add tools, and remember in `seen` the identifiers added.
abbrev pub Adding : Type 0
Adding = List LlmTool × List String

unfoldable pub add_visible : List (String × LlmTool) → List String → Adding → Adding
add_visible registry [] acc = acc
add_visible registry (id ∷ ids) (tools, seen) = add_visible registry ids (
    if mem id seen
    then (tools, seen)
    else elim (lookup id registry) [ some t ↦ (tools ++ t ∷ [], id ∷ seen) | none ↦ (tools, seen) ])

unfoldable pub add_set_tools : Values → List TaskVariable → Adding → Adding
add_set_tools vs [] acc = acc
add_set_tools vs (v ∷ rest) (tools, seen) = add_set_tools vs rest (
    if is_collected v.name vs || mem (set_tool_id v.name) seen
    then (tools, seen)
    else (tools ++ make_set_tool v ∷ [], set_tool_id v.name ∷ seen))

unfoldable pub add_tasks : List (String × LlmTool) → Collected → List TaskDef → Adding → Adding
unfolding add_visible add_set_tools
add_tasks registry c [] acc = acc
add_tasks registry c (t ∷ ts) acc =
    add_tasks registry c ts
      (add_set_tools (values_of t.id c) t.variables (add_visible registry t.visible_tool_ids acc))

unfoldable pub build_tools :
    List LlmTool
    → List (String × LlmTool)
    → TaskGroupConfig
    → Collected
    → List TaskDef
    → List LlmTool
unfolding global_tools add_tasks
build_tools permanent registry config c tasks =
    (add_tasks registry c tasks (permanent ++ global_tools registry config.global_tools, [])).0
