-- ===== src/Conversation/Pipeline.antt =====
-- What the simulation of speech sends, and the assistant context aggregator. In the pipeline of the
-- program (main.go, README.md) the aggregator stands before the TTS handler: what that handler sends
-- to the next one goes on, away from the aggregator, and what it sends to the top comes to the
-- aggregator through the first handler.
use interact_kit_sdk.Prelude.{
  ℕ, ◌≡◌, refl, sym, ap, subst, ◌∙◌, ◌⊎◌, inl, inr, Bool, true, false, not, ◌&&◌, List, [], ◌∷◌,
  ◌++◌, arith, if◌then◌else◌, is_some, Bool-cases, Elem, All,
}
use interact_kit_sdk.Text.{Text, fields, trim_left, trim_right, trim_space}
use interact_kit_sdk.Events.{
  Destination, Event, Packet, new_event_packet, spoken_text, top_service,
  vad_interruption_confirmed,
}
use interact_kit_sdk.Speech.Simulation.{
  SimInput, Simulation, add_words, end_speaking, offers, offers_reset, reset_simulation,
  send_next_word, sim_run, sim_step, stops, take_text, takes_reset, takes_text, tick, ticks,
}
use interact_kit_sdk.Conversation.Assistant.{
  AssistantAggregator, assistant_dispatch, assistant_handle_event, assistant_run,
  commit_assistant_message, commit_text, on_completed, on_interruption, on_tool_result,
}
use interact_kit_sdk.Conversation.Spoken.{assistant_run-append}

abbrev is_top : Destination → Bool
is_top top_service = true
is_top _ = false

-- the events that go to the top of the pipeline
unfoldable pub top_events : List Packet → List Event
top_events [] = []
top_events (q ∷ qs) =
    let rest = top_events qs in if is_top q.destination then q.event ∷ rest else rest

abbrev says_word : Event → Bool
says_word e = is_some (spoken_text e)

-- Does no packet to the top say a word?
unfoldable pub top_silent : List Packet → Bool
top_silent [] = true
top_silent (q ∷ qs) = not (is_top q.destination && says_word q.event) && top_silent qs

top_silent-append : (xs ys : List Packet) → top_silent (xs ++ ys) ≡ (top_silent xs && top_silent ys)
unfolding top_silent
top_silent-append [] ys = refl
top_silent-append (x ∷ xs) ys = ground (arith, top_silent-append xs ys)

end_speaking-silent : (s : Simulation) → top_silent (end_speaking s).1 ≡ true
unfolding end_speaking top_silent new_event_packet
end_speaking-silent s = ground arith

send_next_word-silent :
    (ws : List Text) (s : Simulation) → top_silent (send_next_word ws s).1 ≡ true
unfolding send_next_word top_silent new_event_packet
send_next_word-silent [] s = refl
send_next_word-silent (w ∷ []) s = end_speaking-silent (record s { words = []; has_timer = false })
send_next_word-silent (w ∷ v ∷ ws) s = refl

add_words-silent : (ws : List Text) (s : Simulation) → top_silent (add_words ws s).1 ≡ true
unfolding add_words top_silent new_event_packet
add_words-silent [] s = refl
add_words-silent (w ∷ ws) s =
    let all = s.words ++ w ∷ ws in
    ground (
      arith,
      send_next_word-silent all (record s { words = all }),
      send_next_word-silent all (record s { is_speaking = true; words = all }),
    )

take_text-silent : (ts : List Text) (s : Simulation) → top_silent (take_text ts s).1 ≡ true
unfolding take_text top_silent
take_text-silent [] s = refl
take_text-silent (t ∷ ts) s = add_words-silent (fields t) (record s { queued = ts })

tick-silent : (ws : List Text) (s : Simulation) → top_silent (tick ws s).1 ≡ true
unfolding tick
tick-silent [] s = end_speaking-silent (record s { has_timer = false })
tick-silent (w ∷ ws) s = send_next_word-silent (w ∷ ws) s

sim_step-silent : (i : SimInput) (s : Simulation) → top_silent (sim_step i s).1 ≡ true
unfolding sim_step top_silent reset_simulation
sim_step-silent (offers t) s = refl
sim_step-silent offers_reset s = refl
sim_step-silent takes_text s = take_text-silent s.queued s
sim_step-silent takes_reset s = ground (
  arith,
  end_speaking-silent
      (record s { words = []; queued = []; has_timer = false; reset_waits = false }),
)
sim_step-silent ticks s = ground (arith, tick-silent s.words s)
sim_step-silent stops s = end_speaking-silent (record s { has_timer = false })

sim_run-silent : (is : List SimInput) (s : Simulation) → top_silent (sim_run is s).1 ≡ true
unfolding sim_run
sim_run-silent [] s = unfold top_silent in refl
sim_run-silent (i ∷ is) s =
    let (s', out) = sim_step i s in
    rw (top_silent-append out (sim_run is s').1, sim_step-silent i s) (sim_run-silent is s')

abbrev shown : Bool → Packet → List Packet → List Event
shown b q qs = if b then q.event ∷ top_events qs else top_events qs

top_events-silent :
    (e : Event) (out : List Packet)
    → top_silent out ≡ true
    → Elem e (top_events out)
    → says_word e ≡ false
unfolding top_silent top_events
top_events-silent e [] h m = absurd m
top_events-silent e (q ∷ qs) h m = elim (Bool-cases (is_top q.destination)) [
  | inr passes ↦
      top_events-silent e qs (ground (arith, h)) (subst (λ b. Elem e (shown b q qs)) passes m)
  | inl top ↦ elim (subst (λ b. Elem e (shown b q qs)) top m) [
    | inl same ↦ subst (λ x. says_word x ≡ false) (sym same) (ground (arith, h, top))
    | inr later ↦ top_events-silent e qs (ground (arith, h)) later
  ]
]

-- A packet comes from a handler before, which says no word, or through the top from the simulation.
abbrev pub Arrives : List Packet → ℕ × Packet → Type 0
Arrives out (k, q) = (says_word q.event ≡ false) ⊎ Elem q.event (top_events out)

Arrives-silent :
    (is : List SimInput) (s : Simulation) (k : ℕ) (q : Packet)
    → Arrives (sim_run is s).1 (k, q)
    → says_word q.event ≡ false
Arrives-silent is s k q (inl silent) = silent
Arrives-silent is s k q (inr top) =
    top_events-silent q.event (sim_run is s).1 (sim_run-silent is s) top

handle-nothing_spoken :
    (k : ℕ) (q : Packet) (p : AssistantAggregator)
    → says_word q.event ≡ false
    → p.spoken_buffer ≡ []
    → (assistant_handle_event k q p).0.spoken_buffer ≡ []
unfolding assistant_handle_event assistant_dispatch on_interruption on_completed on_tool_result
    commit_assistant_message
handle-nothing_spoken k q p silent empty = ground arith

run-nothing_spoken :
    (is : List SimInput) (s : Simulation) (qs : List (ℕ × Packet)) (p : AssistantAggregator)
    → All (Arrives (sim_run is s).1) qs
    → p.spoken_buffer ≡ []
    → (assistant_run qs p).spoken_buffer ≡ []
unfolding assistant_run
run-nothing_spoken is s [] p a empty = empty
run-nothing_spoken is s ((k, q) ∷ qs) p (a, as_) empty =
    run-nothing_spoken is s qs (assistant_handle_event k q p).0 as_
      (handle-nothing_spoken k q p (Arrives-silent is s k q a) empty)

trim_nothing : trim_space [] ≡ []
unfolding trim_space trim_left trim_right
trim_nothing = refl

-- a confirmed interruption of a turn of which nothing was heard
interruption-nothing_spoken :
    (j : ℕ) (stop : Packet) (p : AssistantAggregator)
    → p.spoken_buffer ≡ []
    → stop.event ≡ vad_interruption_confirmed
    → (assistant_handle_event j stop p).0.context ≡ p.context
unfolding assistant_handle_event assistant_dispatch on_interruption commit_assistant_message
    commit_text
interruption-nothing_spoken j stop p empty i = ground (arith, ap trim_space empty ∙ trim_nothing)

-- An aggregator that has heard nothing gets any packets of which each says no word, or is of an
-- event that the simulation, over any inputs in any state, sent to the top: an interruption that is
-- confirmed then leaves the conversation as it is, whatever of the response the simulation has said.
pub interruption_commits_nothing :
    (is : List SimInput) (s : Simulation) (qs : List (ℕ × Packet)) (j : ℕ) (stop : Packet)
    (p : AssistantAggregator)
    → p.spoken_buffer ≡ []
    → All (Arrives (sim_run is s).1) qs
    → stop.event ≡ vad_interruption_confirmed
    → (assistant_run (qs ++ (j, stop) ∷ []) p).context ≡ (assistant_run qs p).context
unfolding assistant_run
interruption_commits_nothing is s qs j stop p empty arrive i =
    ap (λ x. x.context) (assistant_run-append qs ((j, stop) ∷ []) p)
    ∙ interruption-nothing_spoken j stop (assistant_run qs p)
        (run-nothing_spoken is s qs p arrive empty) i
