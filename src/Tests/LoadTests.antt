-- ===== src/Tests/LoadTests.antt =====
-- Loading a task group: handlers/context/dynamic_context_manager.go.
use interact_kit_sdk.Conversation.{or_empty}
use interact_kit_sdk.Task.Config.{find_task}
use interact_kit_sdk.Prelude.{◌≡◌, refl, none, some, List, [], ◌∷◌}
use interact_kit_sdk.Text.{codes}
use interact_kit_sdk.Events.{system, user, LlmMessage}
use interact_kit_sdk.Task.Manager.{Manager}
use interact_kit_sdk.Task.Load.{load_task_group, start_group}
use interact_kit_sdk.Task.Loading.{Fresh, load_task_group-Fresh}
use interact_kit_sdk.Tests.TaskTests.{intake, loaded}

abbrev greeting : List LlmMessage
greeting =
    record { role = system; message = codes "Be kind." }
    ∷ record { role = user; message = codes "Hello" }
    ∷ []

abbrev before : Manager
before = record (loaded none) { context = some (record { messages = greeting; tools = [] }) }

intake_loads : load_task_group intake before ≡ some (start_group intake before)
unfolding load_task_group find_task
intake_loads = refl

load-Fresh_example : Fresh intake greeting (start_group intake before)
unfolding or_empty
load-Fresh_example = load_task_group-Fresh intake before intake_loads
