-- ===== src/Speech/Speaking.antt =====
-- The speaking state of the simulation, and the words that it speaks.
use interact_kit_sdk.Prelude.{◌≡◌, refl, Bool, true, false, not, List, [], ◌∷◌, ◌++◌, arith}
use interact_kit_sdk.Text.{is_empty, Text}
use interact_kit_sdk.Events.{
  tts_speaking_ended, tts_spoken_text_chunk, tts_speaking_started, top_service, next_service,
  Packet,
}
use interact_kit_sdk.Speech.Simulation.{
  add_words, sends_to, tick, ticks, stops, send_next_word, Simulation, SimInput, new_simulation,
  sim_step,
}

-- Between two cases of the loop a timer runs exactly while words wait, which is while the bot
-- speaks.
pub record SimInv (s : Simulation) : Type 0 where
  pub timer_iff : s.has_timer ≡ not (is_empty s.words)
  pub speaking_iff : s.is_speaking ≡ not (is_empty s.words)

pub new-SimInv : SimInv new_simulation
new-SimInv = ground arith

-- the inputs while the loop has not been stopped
abbrev pub Runs : SimInput → Type 0
Runs stops = ⊥
Runs _ = Unit

send_next_word-SimInv :
    (w : Text) (ws : List Text) (s : Simulation)
    → s.is_speaking ≡ true
    → SimInv (send_next_word (w ∷ ws) s).0
unfolding send_next_word
send_next_word-SimInv w [] s h = ground arith
send_next_word-SimInv w (v ∷ ws) s h = ground arith

-- The packets that a word makes: the word, and the end after the last.
abbrev pub word_packets : List Text → List Packet
word_packets [] = []
word_packets (w ∷ []) =
    sends_to next_service (tts_spoken_text_chunk w) ∷ sends_to top_service tts_speaking_ended ∷ []
word_packets (w ∷ v ∷ ws) = sends_to next_service (tts_spoken_text_chunk w) ∷ []

-- a state that speaks these words next
abbrev pub speaking_state : List Text → List Text → Bool → Simulation
speaking_state queue ws resets = record {
  queued = queue;
  reset_waits = resets;
  words = ws;
  has_timer = not (is_empty ws);
  is_speaking = not (is_empty ws);
}

pub SimInv-state : (s : Simulation) → SimInv s → s ≡ speaking_state s.queued s.words s.reset_waits
SimInv-state s v = ground arith

send_next_word-speaks :
    (w : Text) (ws queue : List Text) (b t : Bool)
    → send_next_word (w ∷ ws) (record (speaking_state queue (w ∷ ws) b) { has_timer = t })
      ≡ (speaking_state queue ws b, word_packets (w ∷ ws))
unfolding send_next_word
send_next_word-speaks w [] queue b t = refl
send_next_word-speaks w (v ∷ ws) queue b t = refl

pub add_words-idle :
    (w : Text) (ws queue : List Text) (b : Bool)
    → add_words (w ∷ ws) (speaking_state queue [] b) ≡ (
      speaking_state queue ws b,
      sends_to top_service tts_speaking_started ∷ word_packets (w ∷ ws),
    )
unfolding add_words
add_words-idle w ws queue b = cc (send_next_word-speaks w ws queue b false)

pub add_words-busy :
    (w u : Text) (ws us queue : List Text) (b : Bool)
    → add_words (w ∷ ws) (speaking_state queue (u ∷ us) b)
      ≡ (speaking_state queue ((u ∷ us) ++ w ∷ ws) b, [])
unfolding add_words
add_words-busy w u ws us queue b = refl

pub tick-busy :
    (w : Text) (ws queue : List Text) (b : Bool)
    → sim_step ticks (speaking_state queue (w ∷ ws) b)
      ≡ (speaking_state queue ws b, word_packets (w ∷ ws))
unfolding sim_step tick
tick-busy w ws queue b = send_next_word-speaks w ws queue b true

pub tick-idle :
    (queue : List Text) (b : Bool)
    → sim_step ticks (speaking_state queue [] b) ≡ (speaking_state queue [] b, [])
unfolding sim_step
tick-idle queue b = refl
