-- ===== src/Llm.antt =====
-- The handler of the language model: handlers/llm/llm_handler.go.
pub mod Filler
pub mod Prompt
pub mod Answers
pub mod Handler
pub mod Loop
pub mod Tokens
pub mod Overtaken
pub mod Discarding
pub mod Invariant
pub mod Texts
pub mod Relaying
pub mod Completed
pub mod Faults
pub mod Alive
