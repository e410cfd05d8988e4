-- ===== src/Tests/CartesiaTests.antt =====
-- Runs of the text-to-speech service of Cartesia, services/cartesia/tts/tts.go.
use interact_kit_sdk.Services.Shared.{connected}
use interact_kit_sdk.Services.Cartesia.Utterances.{acts-ended_never_used}
use interact_kit_sdk.Text.{codes, Text}
use interact_kit_sdk.Services.Cartesia.{new_tts, CartesiaConfig, CartesiaTts}
use interact_kit_sdk.Services.Cartesia.Contexts.{
  acts, open_contexts, Action, resets, initializes, starts, buffers, finishes,
}
use interact_kit_sdk.Prelude.{ℕ, ◌≡◌, true, false, some, List, [], ◌∷◌}

abbrev config : CartesiaConfig
config = record {
  api_key = codes "k";
  base_url = [];
  model_id = [];
  voice_id = [];
  language = [];
  api_version = [];
}

-- the n-th identity, as a text of one code point
abbrev nth : ℕ → Text
nth n = n ∷ []

nth_distinct : (i j : ℕ) → nth i ≡ nth j → i ≡ j
nth_distinct i j e = cc

abbrev speaker : CartesiaTts
speaker = record {
  config = config;
  conn = some 4;
  current_session = some 1;
  ended = [];
  cancelled = false;
  heartbeat_started = true;
  context = nth 0;
  drawn = 1;
  is_initialized = true;
}

abbrev turns : List Action
turns =
    initializes
    ∷ starts true true true 1 (connected 4)
    ∷ buffers true (codes "hello")
    ∷ resets true
    ∷ buffers true (codes "again")
    ∷ finishes true
    ∷ []

ended_example : open_contexts [] (acts nth turns (new_tts config)).1 ≡ true
ended_example = acts-ended_never_used nth nth_distinct config turns
