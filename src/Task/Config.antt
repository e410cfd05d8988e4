-- ===== src/Task/Config.antt =====
-- handlers/context/task_group.go, and the parts of handlers/context/dynamic_context_manager.go
-- that say which tasks are visible. Task identifiers and variable names are strings, values are
-- texts. `regexp` compiles and matches: it is the parameter `Regexp`.
use interact_kit_sdk.Prelude.{
  String, Bool, true, false, not, ◌&&◌, ◌||◌, Option, none, some, List, [], ◌∷◌, str_eq,
  if◌then◌else◌,
}
use interact_kit_sdk.Text.{Text, text_eq, is_empty}

pub record TaskVariable : Type 0 where
  pub name : String
  pub description : Text
  pub regex : Text
  pub enum : List Text
  pub example : Text
  pub auto_confirm : Bool
  pub confirm_phrases : List Text

pub record TaskDef : Type 0 where
  pub id : String
  pub name : Text
  pub instructions : Text
  pub variables : List TaskVariable
  pub disappear_after : String
  pub visible_tool_ids : List String
  pub visible_after : String

pub record TaskGroupConfig : Type 0 where
  pub namespace : String
  pub base_instructions : Text
  pub initial_task_id : String
  pub global_tools : List String
  pub tasks : List TaskDef

-- `regexp.Compile`, with `MatchString` of the result; `none` is a malformed pattern
abbrev pub Regexp : Type 0
Regexp = Text → Option (Text → Bool)

-- membership in a Go set of strings, kept as a list
unfoldable pub mem : String → List String → Bool
mem k [] = false
mem k (j ∷ js) = str_eq j k || mem k js

unfoldable pub allowed : Text → List Text → Bool
allowed v [] = false
allowed v (a ∷ as') = text_eq a v || allowed v as'

unfoldable pub matches : Option (Text → Bool) → Text → Bool
matches none v = true
matches (some m) v = m v

-- `(*TaskVariable).Validate`
unfoldable pub validate : Regexp → TaskVariable → Text → Bool
unfolding allowed matches
validate re v value =
    if not (is_empty v.enum)
    then allowed value v.enum
    else if not (is_empty v.regex)
    then matches (re v.regex) value
    else not (is_empty value)

unfoldable pub is_visible : List String → TaskDef → Bool
is_visible completed t = str_eq t.visible_after "" || mem t.visible_after completed

unfoldable pub is_disappeared : List String → TaskDef → Bool
is_disappeared completed t = not (str_eq t.disappear_after "") && mem t.disappear_after completed

-- the test of the loop of `visibleTasksLocked`
unfoldable pub in_scope : List String → TaskDef → Bool
unfolding is_visible is_disappeared
in_scope completed t =
    not (mem t.id completed) && is_visible completed t && not (is_disappeared completed t)

unfoldable pub visible_tasks : List String → List TaskDef → List TaskDef
visible_tasks completed [] = []
visible_tasks completed (t ∷ ts) =
    if in_scope completed t then t ∷ visible_tasks completed ts else visible_tasks completed ts

unfoldable pub find_task : List TaskDef → String → Option TaskDef
find_task [] id = none
find_task (t ∷ ts) id = if str_eq t.id id then some t else find_task ts id

-- the inner loop of `handleSetVariable`
unfoldable pub find_variable : List TaskVariable → String → Option TaskVariable
find_variable [] name = none
find_variable (v ∷ vs) name = if str_eq v.name name then some v else find_variable vs name

-- the outer loop: the first task that owns the variable
unfoldable pub find_owner : List TaskDef → String → Option (TaskDef × TaskVariable)
find_owner [] name = none
find_owner (t ∷ ts) name = elim (find_variable t.variables name) [
  | some v ↦ some (t, v)
  | none ↦ find_owner ts name
]
