-- ===== src/Speech/Delivery.antt =====
-- What a speaker says over a run, and with it the simulation.
use interact_kit_sdk.Prelude.{
  ◌≡◌, refl, ◌∙◌, inl, inr, Bool, true, false, not, Option, none, some, List, [], ◌∷◌, ◌++◌, arith,
  Option-cases, All,
}
use interact_kit_sdk.Text.{is_empty, Text, fields}
use interact_kit_sdk.Events.{
  tts_speaking_ended, tts_speaking_started, new_event_packet, tts_spoken_text_chunk, Event, Packet,
}
use interact_kit_sdk.Speech.Simulation.{
  stops, ticks, takes_reset, takes_text, offers_reset, offers, SimInput, sim_run,
}
use interact_kit_sdk.Speech.Speaking.{Runs}
use interact_kit_sdk.Speech.Speaker.{
  hear_text, hush, Speaker, say, hear, speaker_step, speaker_run, concrete, sim_run-refines,
}

-- Is the bot speaking after an event, if it was (not) before? `none`: the event cannot be there.
unfoldable pub track_speaking : Event → Bool → Option Bool
track_speaking tts_speaking_started false = some true
track_speaking tts_speaking_started true = none
track_speaking tts_speaking_ended true = some false
track_speaking tts_speaking_ended false = none
track_speaking (tts_spoken_text_chunk t) true = some true
track_speaking (tts_spoken_text_chunk t) false = none
track_speaking _ speaking = some speaking

unfoldable pub track_packets : List Packet → Bool → Option Bool
track_packets [] speaking = some speaking
track_packets (q ∷ qs) speaking = elim (track_speaking q.event speaking) [
  | none ↦ none
  | some next ↦ track_packets qs next
]

track_packets-append :
    (xs ys : List Packet) (b c : Bool)
    → track_packets xs b ≡ some c
    → track_packets (xs ++ ys) b ≡ track_packets ys c
unfolding track_packets
track_packets-append [] ys b c h = ground arith
track_packets-append (x ∷ xs) ys b c h = elim (Option-cases (track_speaking x.event b)) [
  | inl e ↦ ground arith
  | inr (d, e) ↦ ground (arith, track_packets-append xs ys d c)
]

-- a speaker speaks while it has something to say
abbrev speaks : Speaker → Bool
speaks p = not (is_empty p.to_say)

say-tracked :
    (ws : List Text)
    → track_packets (say ws).1 (not (is_empty ws)) ≡ some (not (is_empty (say ws).0))
unfolding say track_packets track_speaking new_event_packet
say-tracked [] = refl
say-tracked (w ∷ []) = refl
say-tracked (w ∷ v ∷ ws) = refl

hear-tracked :
    (ns ws : List Text)
    → track_packets (hear ns ws).1 (not (is_empty ws)) ≡ some (not (is_empty (hear ns ws).0))
unfolding hear track_packets track_speaking new_event_packet
hear-tracked [] ws = refl
hear-tracked (n ∷ []) [] = refl
hear-tracked (n ∷ m ∷ ns) [] = refl
hear-tracked (n ∷ ns) (w ∷ ws) = refl

hear_text-tracked :
    (ts ws : List Text) (b : Bool)
    → let p : Speaker = record { texts = ts; signal = b; to_say = ws } in
      track_packets (hear_text p).1 (speaks p) ≡ some (speaks (hear_text p).0)
unfolding hear_text
hear_text-tracked [] ws b = unfold track_packets in refl
hear_text-tracked (t ∷ ts) ws b = hear-tracked (fields t) ws

hush-tracked :
    (ts ws : List Text) (b : Bool)
    → let p : Speaker = record { texts = ts; signal = b; to_say = ws } in
      track_packets (hush p).1 (speaks p) ≡ some (speaks (hush p).0)
unfolding hush track_packets track_speaking new_event_packet
hush-tracked ts ws false = refl
hush-tracked ts [] true = refl
hush-tracked ts (w ∷ ws) true = refl

speaker_step-tracked :
    (i : SimInput) (p : Speaker)
    → Runs i
    → track_packets (speaker_step i p).1 (speaks p) ≡ some (speaks (speaker_step i p).0)
unfolding speaker_step track_packets
speaker_step-tracked (offers t) p r = ground arith
speaker_step-tracked offers_reset p r = refl
speaker_step-tracked takes_text p r = hear_text-tracked p.texts p.to_say p.signal
speaker_step-tracked takes_reset p r = hush-tracked p.texts p.to_say p.signal
speaker_step-tracked ticks p r = say-tracked p.to_say
speaker_step-tracked stops p r = absurd r

speaker_run-tracked :
    (is : List SimInput) (p : Speaker)
    → All Runs is
    → track_packets (speaker_run is p).1 (speaks p) ≡ some (speaks (speaker_run is p).0)
unfolding speaker_run
speaker_run-tracked [] p r = unfold track_packets in refl
speaker_run-tracked (i ∷ is) p (r, rs) =
    let (p', out) = speaker_step i p in
    track_packets-append out (speaker_run is p').1 (speaks p) (speaks p')
      (speaker_step-tracked i p r)
    ∙ speaker_run-tracked is p' rs

-- From a state that a speaker stands for, over any inputs before the loop is stopped: a start of
-- speaking is sent only while the bot is silent, a word and an end only while it speaks, and at the
-- end the bot speaks, in the packets as in the state, exactly while words wait.
pub sim_run-tracked :
    (is : List SimInput) (p : Speaker)
    → All Runs is
    → let (s, out) = sim_run is (concrete p) in
      (track_packets out (speaks p) ≡ some s.is_speaking) × (s.is_speaking ≡ not (is_empty s.words))
sim_run-tracked is p r = rw (sim_run-refines is p r) (speaker_run-tracked is p r, refl)
