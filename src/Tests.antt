-- ===== src/Tests.antt =====
-- Runs of the models at concrete inputs, and each theorem at an input that meets its hypotheses.
mod AudioTests
mod ActivityTests
mod TaskTests
mod VadTests
mod SpeechTests
mod LoadTests
mod ConversationTests
mod SimulationTests
mod LlmTests
mod McpTests
mod ToolTests
mod RuntimeTests
mod DeepgramTests
mod ElevenLabsTests
mod CartesiaTests
mod OpenAiTests
mod SttServiceTests
