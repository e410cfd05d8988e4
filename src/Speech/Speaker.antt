-- ===== src/Speech/Speaker.antt =====
-- What the simulation promises: a speaker that holds a list of words and says one of them at each
-- tick. It has no timer and no flag, and the simulation refines it.
use interact_kit_sdk.Prelude.{
  ◌≡◌, refl, ap, ◌∙◌, inl, inr, Bool, true, false, List, [], ◌∷◌, ◌++◌, ltb, if◌then◌else◌,
  Bool-cases, length, All,
}
use interact_kit_sdk.Text.{is_empty, Text, fields}
use interact_kit_sdk.Events.{tts_speaking_started, tts_speaking_ended, top_service, Packet}
use interact_kit_sdk.Speech.Simulation.{
  reset_simulation, stops, takes_reset, takes_text, offers_reset, add_words, Simulation, take_text,
  offers, ticks, SimInput, sim_step, sim_run, sends_to,
}
use interact_kit_sdk.Speech.Speaking.{
  tick-busy, tick-idle, add_words-busy, word_packets, speaking_state, Runs, add_words-idle,
}

pub record Speaker : Type 0 where
  pub texts : List Text
  pub signal : Bool
  pub to_say : List Text

-- one word is said
unfoldable pub say : List Text → List Text × List Packet
say [] = ([], [])
say (w ∷ ws) = (ws, word_packets (w ∷ ws))

-- New words are said after those that wait. A speaker with nothing to say begins, and says the
-- first of them at once.
unfoldable pub hear : List Text → List Text → List Text × List Packet
hear [] ws = (ws, [])
hear (n ∷ ns) [] = (ns, sends_to top_service tts_speaking_started ∷ word_packets (n ∷ ns))
hear (n ∷ ns) (w ∷ ws) = ((w ∷ ws) ++ n ∷ ns, [])

unfoldable pub hear_text : Speaker → Speaker × List Packet
unfolding hear
hear_text p = elim p.texts [
  | [] ↦ (p, [])
  | t ∷ ts ↦ let (ws, out) = hear (fields t) p.to_say in (record p { texts = ts; to_say = ws }, out)
]

unfoldable pub hush : Speaker → Speaker × List Packet
hush p =
    if p.signal
    then (
      record { texts = []; signal = false; to_say = [] },
      if is_empty p.to_say then [] else sends_to top_service tts_speaking_ended ∷ [],
    )
    else (p, [])

unfoldable pub speaker_step : SimInput → Speaker → Speaker × List Packet
unfolding say hear_text hush
speaker_step (offers t) p =
    (if ltb (length p.texts) 100 then record p { texts = p.texts ++ t ∷ [] } else p, [])
speaker_step offers_reset p = (record p { signal = true }, [])
speaker_step takes_text p = hear_text p
speaker_step takes_reset p = hush p
speaker_step ticks p = let (ws, out) = say p.to_say in (record p { to_say = ws }, out)
speaker_step stops p = (p, [])

unfoldable pub speaker_run : List SimInput → Speaker → Speaker × List Packet
speaker_run [] p = (p, [])
speaker_run (i ∷ is) p =
    let (p', out) = speaker_step i p in let (p'', later) = speaker_run is p' in (p'', out ++ later)

-- the simulation that a speaker stands for
abbrev pub concrete : Speaker → Simulation
concrete p = speaking_state p.texts p.to_say p.signal

abbrev concrete_pair : Speaker × List Packet → Simulation × List Packet
concrete_pair (p, out) = (concrete p, out)

hear-refined :
    (ns ws ts : List Text) (b : Bool)
    → add_words ns (speaking_state ts ws b) ≡ (speaking_state ts (hear ns ws).0 b, (hear ns ws).1)
unfolding hear
hear-refined [] ws ts b = unfold add_words in refl
hear-refined (n ∷ ns) [] ts b = add_words-idle n ns ts b
hear-refined (n ∷ ns) (w ∷ ws) ts b = add_words-busy n w ns ws ts b

hear_text-refined :
    (ts ws : List Text) (b : Bool)
    → let p : Speaker = record { texts = ts; signal = b; to_say = ws } in
      take_text ts (concrete p) ≡ concrete_pair (hear_text p)
unfolding take_text hear_text
hear_text-refined [] ws b = refl
hear_text-refined (t ∷ ts) ws b = hear-refined (fields t) ws ts b

say-refined :
    (ts ws : List Text) (b : Bool)
    → sim_step ticks (speaking_state ts ws b) ≡ (speaking_state ts (say ws).0 b, (say ws).1)
unfolding say
say-refined ts [] b = tick-idle ts b
say-refined ts (w ∷ ws) b = tick-busy w ws ts b

hush-refined :
    (ts ws : List Text) (b : Bool)
    → let p : Speaker = record { texts = ts; signal = b; to_say = ws } in
      sim_step takes_reset (concrete p) ≡ concrete_pair (hush p)
unfolding sim_step reset_simulation hush
hush-refined ts [] true = refl
hush-refined ts (w ∷ ws) true = refl
hush-refined ts ws false = refl

speaker_step-refined :
    (i : SimInput) (p : Speaker)
    → Runs i
    → sim_step i (concrete p) ≡ concrete_pair (speaker_step i p)
unfolding speaker_step
speaker_step-refined (offers t) p r =
    unfold sim_step in
    elim (Bool-cases (ltb (length p.texts) 100)) [ inl e ↦ rw e refl | inr e ↦ rw e refl ]
speaker_step-refined offers_reset p r = unfold sim_step in refl
speaker_step-refined takes_text p r = unfold sim_step in hear_text-refined p.texts p.to_say p.signal
speaker_step-refined takes_reset p r = hush-refined p.texts p.to_say p.signal
speaker_step-refined ticks p r = say-refined p.texts p.to_say p.signal
speaker_step-refined stops p r = absurd r

-- From a state that a speaker stands for, over any inputs before the loop is stopped, the simulation
-- sends exactly the packets that the speaker sends, and ends in the state that it stands for.
pub sim_run-refines :
    (is : List SimInput) (p : Speaker)
    → All Runs is
    → sim_run is (concrete p) ≡ (concrete (speaker_run is p).0, (speaker_run is p).1)
unfolding sim_run speaker_run
sim_run-refines [] p r = refl
sim_run-refines (i ∷ is) p (r, rs) =
    let (p', out) = speaker_step i p in
    ap (λ (x : Simulation × List Packet). ((sim_run is x.0).0, x.1 ++ (sim_run is x.0).1))
      (speaker_step-refined i p r)
    ∙ ap (λ (y : Simulation × List Packet). (y.0, out ++ y.1)) (sim_run-refines is p' rs)
