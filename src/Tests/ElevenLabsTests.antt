-- ===== src/Tests/ElevenLabsTests.antt =====
-- Runs of the text-to-speech service of ElevenLabs, services/elevenlabs/tts/tts.go.
use interact_kit_sdk.Services.ElevenLabs.Resets.{reset-then-reader}
use interact_kit_sdk.Services.ElevenLabs.Runs.{acts-greets_first, acts}
use interact_kit_sdk.Services.Shared.{connected}
use interact_kit_sdk.Audio.Bytes.{Bytes}
use interact_kit_sdk.Text.{codes, Text}
use interact_kit_sdk.Services.ElevenLabs.{
  new_tts, ElevenLabsTts, VoiceConfig, reset, buffer_text, closes, writes, says, greeting,
}
use interact_kit_sdk.Services.ElevenLabs.Greeted.{
  flushes, buffers, starts, initializes, greets_first, Action, resets,
}
use interact_kit_sdk.Services.ElevenLabs.Reader.{read_failed, reader_read}
use interact_kit_sdk.Prelude.{◌≡◌, refl, true, false, Option, none, some, List, [], ◌∷◌}

abbrev voice : VoiceConfig
voice = record { api_key = codes "k"; base_url = []; voice_id = []; model_id = [] }

abbrev speaker : ElevenLabsTts
speaker = record {
  config = voice;
  conn = some 4;
  current_session = some 1;
  ended = [];
  cancelled = false;
  heartbeat_started = true;
  is_initialized = true;
}

abbrev nothing_decodes : Text → Option Bytes
nothing_decodes t = none

reset_example :
    let (fresh, out, fault) = reset (connected 5) true speaker in
    let (said, out', fault') = buffer_text true (104 ∷ codes "ello") fresh in
    let (last, out'', reading) =
      reader_read nothing_decodes 1 true [] (read_failed (connected 6) true) said in
    (out ≡ closes 4 ∷ writes 5 greeting ∷ [])
    × (out' ≡ writes 5 (says (104 ∷ codes "ello")) ∷ [])
    × (fault' ≡ none)
    × (out'' ≡ closes 5 ∷ writes 6 greeting ∷ [])
    × (last.conn ≡ some 6)
reset_example =
    reset-then-reader nothing_decodes 1 4 5 6 104 (codes "ello") true [] speaker refl refl refl refl

abbrev call_of_the_day : List Action
call_of_the_day =
    initializes
    ∷ starts true true true 1 (connected 4) true
    ∷ buffers true (codes "hello")
    ∷ resets (connected 5) true
    ∷ buffers true (codes "again")
    ∷ flushes true
    ∷ []

greets_example : greets_first [] (acts nothing_decodes call_of_the_day (new_tts voice)).1 ≡ true
greets_example = acts-greets_first nothing_decodes voice call_of_the_day
