-- ===== src/Task/Prompt.antt =====
-- The instruction message of handlers/context/dynamic_context_manager.go.
use interact_kit_sdk.Prelude.{ℕ, suc, not, List, [], ◌∷◌, ◌++◌, map, if◌then◌else◌}
use interact_kit_sdk.Text.{Text, codes, join, spaced, decimal, is_empty}
use interact_kit_sdk.Task.Config.{TaskVariable, TaskDef}

abbrev pub closing_instruction : Text
closing_instruction =
    codes "You have everything you need. Wrap up the conversation warmly and naturally."

abbrev separator : Text
separator = codes ", "

-- the hint that the loop of `buildVarConstraintsLocked` writes for one variable
unfoldable pub constraint_hint : TaskVariable → Text
constraint_hint v =
    if not (is_empty v.enum)
    then codes "\nFor "
      ++ (v.description
          ++ (codes ", the value must be one of: "
              ++ (join separator (map spaced v.enum) ++ codes ".")))
    else if not (is_empty v.example)
    then codes "\nFor "
      ++ (v.description ++ (codes ", a typical value looks like: " ++ (v.example ++ codes ".")))
    else []

unfoldable pub constraint_hints : List TaskVariable → Text
constraint_hints [] = []
constraint_hints (v ∷ vs) = constraint_hint v ++ constraint_hints vs

unfoldable pub build_var_constraints : TaskDef → Text
build_var_constraints t =
    if is_empty t.variables
    then codes "\nComplete this part of the conversation before moving on to anything else."
    else codes "\n"
      ++ (constraint_hints t.variables
          ++ codes
              "\nRecord the information using the tools available as soon as you have it. Do not ask about other topics or move the conversation forward until everything needed here is captured.")

-- the loop over two or more tasks, from the task of number `i`
unfoldable pub numbered_tasks : ℕ → List TaskDef → Text
numbered_tasks i [] = []
numbered_tasks i (t ∷ ts) =
    decimal i
    ++ (codes ". "
        ++ (t.name
            ++ (codes "\n"
                ++ (t.instructions
                    ++ (build_var_constraints t
                        ++ ((if is_empty ts then [] else codes "\n\n")
                            ++ numbered_tasks (suc i) ts))))))

unfoldable pub build_task_instructions : List TaskDef → Text
build_task_instructions [] = closing_instruction
build_task_instructions (t ∷ []) =
    codes "Focus on the following right now:\n\n" ++ (t.instructions ++ build_var_constraints t)
build_task_instructions (t ∷ u ∷ ts) =
    codes
      "You are working through the following topics simultaneously. Collect the required information for each as the conversation progresses — complete each topic fully before moving on.\n\n"
    ++ numbered_tasks 1 (t ∷ u ∷ ts)
