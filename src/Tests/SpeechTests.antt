-- ===== src/Tests/SpeechTests.antt =====
-- Runs of the TTS handler: handlers/tts/tts_handler.go, handlers/tts/tts_normalizer.go.
use interact_kit_sdk.Prelude.{
  ℕ, String, ◌≡◌, refl, Bool, true, false, ◌&&◌, List, [], ◌∷◌, ◌++◌, leb,
}
use interact_kit_sdk.Text.{rune_len, byte_len, has_prefix, contains, Text, codes}
use interact_kit_sdk.Events.{
  llm_response_completed, llm_response_chunk, Event, Packet, next_service,
}
use interact_kit_sdk.Speech.{
  has_break_word, on_chunk, tts_dispatch, tts_handle_event, Answers, TtsHandler, tts_run,
}
use interact_kit_sdk.Speech.Normalize.{normalize_text_for_tts}
use interact_kit_sdk.Speech.Segments.{buffered, Segments, response, tts_run-Segments}
use interact_kit_sdk.Speech.Flushes.{InStep, tts_run-InStep}

-- letters, digits and punctuation of ASCII, and the space
abbrev ascii : ℕ → Bool
ascii c = leb 32 c && leb c 126

unfoldable normalize : Text → Text
unfolding normalize_text_for_tts
normalize = normalize_text_for_tts ascii

abbrev fine : Answers
fine = record { buffer_ok = true; flush_ok = true; reset_ok = true }

abbrev handler : TtsHandler
handler = record {
  break_words = codes ". " ∷ [];
  min_text_length = 5;
  text_buffer = [];
  has_buffered_since_last_flush = false;
  enable_simulation = false;
}

abbrev gets : Event → Answers × Packet
gets e = (fine, record { event = e; destination = next_service; relayer = "LLMHandler" })

abbrev chunk : String → Answers × Packet
chunk s = gets (llm_response_chunk (codes s) false)

abbrev answer : List (Answers × Packet)
answer = chunk "**Good** " ∷ chunk "day. " ∷ chunk "Bye" ∷ []

answer_calls : buffered (tts_run normalize answer handler).1 ≡ codes "Good day." ∷ []
unfolding tts_run tts_handle_event tts_dispatch on_chunk normalize buffered has_break_word contains
    has_prefix byte_len rune_len
answer_calls = refl

tts_run-Segments_example :
    let (h', calls) = tts_run normalize answer handler in
    Segments normalize (response answer) calls h'.text_buffer
tts_run-Segments_example = tts_run-Segments normalize answer handler (refl, (refl, (refl, tt)))

tts_run-InStep_example :
    let (h', calls) = tts_run normalize (answer ++ gets (llm_response_completed []) ∷ []) handler in
    InStep normalize h' calls false
tts_run-InStep_example =
    tts_run-InStep normalize (answer ++ gets (llm_response_completed []) ∷ []) handler false
      (refl, (refl, (refl, (refl, tt)))) refl
