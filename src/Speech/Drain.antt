-- ===== src/Speech/Drain.antt =====
-- The words that a speaker says, and that the simulation says them all.
use interact_kit_sdk.Prelude.{
  ◌+◌, ◌≤◌, ◌≡◌, refl, sym, ap, ◌∙◌, Bool, true, none, some, List, [], ◌∷◌, ◌++◌, append-nil,
  append_assoc, arith, ltb, length, All, length-append,
}
use interact_kit_sdk.Text.{Text, fields}
use interact_kit_sdk.Events.{spoken_text, new_event_packet, Packet}
use interact_kit_sdk.Speech.Simulation.{
  sim_run, takes_text, offers_reset, stops, takes_reset, offers, ticks, SimInput,
}
use interact_kit_sdk.Speech.Speaking.{word_packets, Runs, speaking_state}
use interact_kit_sdk.Speech.Speaker.{
  hear_text, Speaker, say, hear, speaker_step, speaker_run, concrete, sim_run-refines,
}

-- the words that packets say
unfoldable pub said : List Packet → List Text
said [] = []
said (q ∷ qs) = elim (spoken_text q.event) [ some t ↦ t ∷ said qs | none ↦ said qs ]

pub said-append : (xs ys : List Packet) → said (xs ++ ys) ≡ said xs ++ said ys
unfolding said
said-append [] ys = refl
said-append (x ∷ xs) ys = ground (arith, said-append xs ys)

unfoldable pub all_words : List Text → List Text
all_words [] = []
all_words (t ∷ ts) = fields t ++ all_words ts

-- the words of a speaker, those in its channel last
abbrev words_left : Speaker → List Text
words_left p = p.to_say ++ all_words p.texts

say-words : (ws : List Text) → said (say ws).1 ++ (say ws).0 ≡ ws
unfolding say said new_event_packet
say-words [] = refl
say-words (w ∷ []) = refl
say-words (w ∷ v ∷ ws) = refl

hear-words : (ns ws : List Text) → said (hear ns ws).1 ++ (hear ns ws).0 ≡ ws ++ ns
unfolding hear said new_event_packet
hear-words [] ws = sym (append-nil ws)
hear-words (n ∷ []) [] = refl
hear-words (n ∷ m ∷ ns) [] = refl
hear-words (n ∷ ns) (w ∷ ws) = refl

-- every tick says one of the words, and the last of them ends the speaking
abbrev pub utterance : List Text → List Packet
utterance [] = []
utterance (w ∷ ws) = word_packets (w ∷ ws) ++ utterance ws

unfoldable pub tick_each : List Text → List SimInput
tick_each [] = []
tick_each (w ∷ ws) = ticks ∷ tick_each ws

speaker_run-drains :
    (ws ts : List Text) (b : Bool)
    → speaker_run (tick_each ws) (record { texts = ts; signal = b; to_say = ws })
      ≡ (record { texts = ts; signal = b; to_say = [] }, utterance ws)
unfolding speaker_run tick_each speaker_step say
speaker_run-drains [] ts b = refl
speaker_run-drains (w ∷ ws) ts b =
    ap (λ (x : Speaker × List Packet). (x.0, word_packets (w ∷ ws) ++ x.1))
      (speaker_run-drains ws ts b)

all_words-append : (xs ys : List Text) → all_words (xs ++ ys) ≡ all_words xs ++ all_words ys
unfolding all_words
all_words-append [] ys = refl
all_words-append (x ∷ xs) ys =
    rw (all_words-append xs ys) (sym (append_assoc (fields x) (all_words xs) (all_words ys)))

-- inputs that neither stop the loop nor take a reset
abbrev pub Keeps : SimInput → Type 0
Keeps takes_reset = ⊥
Keeps stops = ⊥
Keeps _ = Unit

-- the texts that the handler offers
abbrev pub offered : List SimInput → List Text
offered [] = []
offered (offers t ∷ is) = t ∷ offered is
offered (offers_reset ∷ is) = offered is
offered (takes_text ∷ is) = offered is
offered (takes_reset ∷ is) = offered is
offered (ticks ∷ is) = offered is
offered (stops ∷ is) = offered is

hear_text-words :
    (ts ws : List Text) (b : Bool)
    → let p : Speaker = record { texts = ts; signal = b; to_say = ws } in
      said (hear_text p).1 ++ words_left (hear_text p).0 ≡ words_left p
unfolding hear_text all_words
hear_text-words [] ws b = unfold said in refl
hear_text-words (t ∷ ts) ws b =
    sym (append_assoc (said (hear (fields t) ws).1) (hear (fields t) ws).0 (all_words ts))
    ∙ ap (λ x. x ++ all_words ts) (hear-words (fields t) ws)
    ∙ append_assoc ws (fields t) (all_words ts)

speaker_step-words :
    (i : SimInput) (p : Speaker)
    → Keeps i
    → length p.texts + length (offered (i ∷ [])) ≤ 100
    → said (speaker_step i p).1 ++ words_left (speaker_step i p).0
      ≡ words_left p ++ all_words (offered (i ∷ []))
unfolding speaker_step
speaker_step-words (offers t) p k fit =
    let room : ltb (length p.texts) 100 ≡ true = ground arith in
    rw room (
      unfold said in
      ap (λ x. p.to_say ++ x) (all_words-append p.texts (t ∷ []))
      ∙ sym (append_assoc p.to_say (all_words p.texts) (all_words (t ∷ []))))
speaker_step-words offers_reset p k fit = unfold said all_words in sym (append-nil (words_left p))
speaker_step-words takes_text p k fit =
    hear_text-words p.texts p.to_say p.signal ∙ unfold all_words in sym (append-nil (words_left p))
speaker_step-words takes_reset p k fit = absurd k
speaker_step-words ticks p k fit =
    sym (append_assoc (said (say p.to_say).1) (say p.to_say).0 (all_words p.texts))
    ∙ ap (λ x. x ++ all_words p.texts) (say-words p.to_say)
    ∙ unfold all_words in sym (append-nil (words_left p))
speaker_step-words stops p k fit = absurd k

speaker_step-length :
    (i : SimInput) (p : Speaker)
    → Keeps i
    → length (speaker_step i p).0.texts ≤ length p.texts + length (offered (i ∷ []))
unfolding speaker_step hear_text
speaker_step-length (offers t) p k = ground (arith, length-append {0} p.texts (t ∷ []))
speaker_step-length offers_reset p k = omega arith
speaker_step-length takes_text p k = ground arith
speaker_step-length takes_reset p k = absurd k
speaker_step-length ticks p k = omega arith
speaker_step-length stops p k = absurd k

offered-cons :
    (i : SimInput) (is : List SimInput) → offered (i ∷ is) ≡ offered (i ∷ []) ++ offered is
offered-cons (offers t) is = refl
offered-cons offers_reset is = refl
offered-cons takes_text is = refl
offered-cons takes_reset is = refl
offered-cons ticks is = refl
offered-cons stops is = refl

speaker_run-words :
    (is : List SimInput) (p : Speaker)
    → All Keeps is
    → length p.texts + length (offered is) ≤ 100
    → said (speaker_run is p).1 ++ words_left (speaker_run is p).0
      ≡ words_left p ++ all_words (offered is)
unfolding speaker_run
speaker_run-words [] p k fit = unfold said all_words in sym (append-nil (words_left p))
speaker_run-words (i ∷ is) p (k, ks) fit =
    let (p', out) = speaker_step i p in
    let (p'', later) = speaker_run is p' in
    let e = offered-cons i is in
    let n = ap (λ (ts : List Text). length ts) e ∙ length-append (offered (i ∷ [])) (offered is) in
    let m = speaker_step-length i p k in
    ap (λ x. x ++ words_left p'') (said-append out later)
    ∙ append_assoc (said out) (said later) (words_left p'')
    ∙ ap (λ x. said out ++ x) (speaker_run-words is p' ks (omega (arith, n, m)))
    ∙ sym (append_assoc (said out) (words_left p') (all_words (offered is)))
    ∙ ap (λ x. x ++ all_words (offered is)) (speaker_step-words i p k (omega (arith, n)))
    ∙ append_assoc (words_left p) (all_words (offered (i ∷ []))) (all_words (offered is))
    ∙ ap (λ x. words_left p ++ x) (sym (all_words-append (offered (i ∷ [])) (offered is)))
    ∙ ap (λ x. words_left p ++ all_words x) (sym e)

tick_each-Runs : (ws : List Text) → All Runs (tick_each ws)
unfolding tick_each
tick_each-Runs [] = tt
tick_each-Runs (w ∷ ws) = (tt, tick_each-Runs ws)

Keeps-Runs_one : (i : SimInput) → Keeps i → Runs i
Keeps-Runs_one (offers t) k = tt
Keeps-Runs_one offers_reset k = tt
Keeps-Runs_one takes_text k = tt
Keeps-Runs_one takes_reset k = tt
Keeps-Runs_one ticks k = tt
Keeps-Runs_one stops k = absurd k

pub Keeps-Runs : (is : List SimInput) → All Keeps is → All Runs is
Keeps-Runs [] k = tt
Keeps-Runs (i ∷ is) (k, ks) = (Keeps-Runs_one i k, Keeps-Runs is ks)

-- From a state that a speaker stands for, after any inputs before the loop is stopped: as many
-- further ticks as words wait say all of these words in their order, one at a tick, and after the
-- last word the end of speaking; then no word waits, no timer runs, and the bot does not speak.
pub sim_run-drains :
    (is : List SimInput) (p : Speaker)
    → All Runs is
    → let s = (sim_run is (concrete p)).0 in
      sim_run (tick_each s.words) s ≡ (speaking_state s.queued [] s.reset_waits, utterance s.words)
sim_run-drains is p r = rw (sim_run-refines is p r) (
    let q = (speaker_run is p).0 in
    sim_run-refines (tick_each q.to_say) q (tick_each-Runs q.to_say)
    ∙ ap (λ (x : Speaker × List Packet). (concrete x.0, x.1))
        (speaker_run-drains q.to_say q.texts q.signal))

-- From a state that a speaker stands for, over any inputs that neither stop the loop nor take a
-- reset, when the texts that wait and those that are offered are 100 at most: the words that the
-- packets say, then the words that wait to be said, then the words of the texts in the channel, are
-- the words that waited before, then those of the texts that were in the channel and of those
-- offered since; so no word is lost, said twice or out of order.
pub sim_run-words :
    (is : List SimInput) (p : Speaker)
    → All Keeps is
    → length p.texts + length (offered is) ≤ 100
    → let (s, out) = sim_run is (concrete p) in
      said out ++ (s.words ++ all_words s.queued)
      ≡ (p.to_say ++ all_words p.texts) ++ all_words (offered is)
sim_run-words is p k fit =
    rw (sim_run-refines is p (Keeps-Runs is k)) (speaker_run-words is p k fit)
