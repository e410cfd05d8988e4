-- ===== src/Task.antt =====
-- Task groups: handlers/context/task_group.go and handlers/context/dynamic_context_manager.go.
-- Config has the declared tasks and what is visible of them, Prompt the system message, Tools the
-- tool list, Manager the state and its operations, Load `LoadTaskGroup`, and the other children the
-- proofs.
pub mod Config
pub mod Prompt
pub mod Tools
pub mod Manager
pub mod Load
pub mod Loading
pub mod Handlers
pub mod Effects
pub mod Steps
pub mod Branching
pub mod Values
pub mod Progress
