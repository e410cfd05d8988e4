-- ===== src/Services.antt =====
-- The services that the handlers call: services/. Each child is one of them.
pub mod Shared
pub mod DeepgramTts
pub mod ElevenLabs
pub mod Cartesia
pub mod OpenAi
pub mod DeepgramStt
