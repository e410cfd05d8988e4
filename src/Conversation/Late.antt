-- ===== src/Conversation/Late.antt =====
-- An interruption that is confirmed when the response is complete, but still being spoken.
use interact_kit_sdk.Text.{Text}
