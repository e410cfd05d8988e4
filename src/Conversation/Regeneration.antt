-- ===== src/Conversation/Regeneration.antt =====
-- What the timer of the user context aggregator can do.
use interact_kit_sdk.Conversation.{to_next}
use interact_kit_sdk.Text.{Text}
use interact_kit_sdk.Prelude.{
  ℕ, zero, suc, ◌+◌, ◌≤◌, ◌≡◌, ap, ◌≢◌, ◌⊎◌, inl, inr, Bool, true, false, not, ◌&&◌, Option, none,
  some, List, [], ◌∷◌, ◌++◌, arith, if◌then◌else◌, is_some, Option-cases, length, All,
}
use interact_kit_sdk.Events.{
  llm_prepare_interim_filler, vad_interruption_confirmed, LlmContext, new_event_packet,
  llm_generate_response, stt_interim_output, vad_interruption_suspected, stt_final_output, Packet,
  Event,
}
use interact_kit_sdk.Conversation.User.{
  sends, take_callback, on_sends, user_run, regenerates, stop_false_positive_timer, timer_fires,
  user_packet, UserAggregator, UserInput, user_step,
}

-- A running timer is in the field.
pub record TimerInv (p : UserAggregator) : Type 0 where
  pub armed_has_timer : (p.armed ≡ false) ⊎ (is_some p.false_positive_timer ≡ true)

-- a callback and the others
abbrev Taken : Type 0
Taken = Option (LlmContext × List LlmContext)

take_callback-length :
    (i : ℕ) (cs : List LlmContext) (c : LlmContext) (others : List LlmContext)
    → take_callback i cs ≡ some (c, others)
    → length cs ≡ suc (length others)
unfolding take_callback
take_callback-length i [] c others e = cc
take_callback-length zero (d ∷ cs) c others e = ground arith
take_callback-length (suc i) (d ∷ cs) c others e = elim (Option-cases (take_callback i cs)) [
  | inl nothing ↦ let bad : Path Taken none (some (c, others)) = rw nothing at e in cc
  | inr ((x, xs), taken) ↦
      let same : Path Taken (some (x, d ∷ xs)) (some (c, others)) = rw taken at e in
      ground (arith, take_callback-length i cs x xs taken)
]

-- a signal that waits in the channel
unfoldable pub signals : Option LlmContext → ℕ
signals none = 0
signals (some c) = 1

-- the responses that may still be requested for suspicions that are over
abbrev outstanding : UserAggregator → ℕ
outstanding p = length p.sending + signals p.regenerate

-- a signal that the stop of the timer does not drain: that of an earlier timer
unfoldable pub undrained : UserAggregator → ℕ
unfolding signals
undrained p = if not p.armed && is_some p.false_positive_timer then 0 else signals p.regenerate

user_step-TimerInv : (i : UserInput) (p : UserAggregator) → TimerInv p → TimerInv (user_step i p).0
unfolding user_step
user_step-TimerInv (user_packet q) p v = ground arith
user_step-TimerInv timer_fires p v = ground arith
user_step-TimerInv regenerates p v = ground arith
user_step-TimerInv (sends i) p v = ground arith

-- the transcripts, which confirm that a user speaks
abbrev pub is_transcript : Event → Bool
is_transcript (stt_interim_output t) = true
is_transcript (stt_final_output t) = true
is_transcript _ = false

-- what a transcript leaves: no timer, the callbacks that have started, and no more than a signal of
-- an earlier timer
record Stopped (p p' : UserAggregator) : Type 0 where
  no_timer : p'.armed ≡ false
  same_callbacks : p'.sending ≡ p.sending
  drained : signals p'.regenerate ≤ undrained p

transcript-Stopped :
    (q : Packet) (p : UserAggregator)
    → TimerInv p
    → is_transcript q.event ≡ true
    → Stopped p (user_step (user_packet q) p).0
unfolding user_step stop_false_positive_timer signals undrained
transcript-Stopped q p v t = ground arith

-- inputs among which no new interruption is suspected
abbrev pub NotSuspected : UserInput → Type 0
NotSuspected (user_packet q) = q.event ≢ vad_interruption_suspected
NotSuspected _ = Unit

-- `LLMGenerateResponseEvent`s among packets
unfoldable pub generations : List Packet → ℕ
generations [] = 0
generations (q ∷ qs) = elim q.event [
  | llm_generate_response c ↦ suc (generations qs)
  | _ ↦ generations qs
]

-- the finished transcripts and the requests for a response that come from outside
unfoldable pub requests : List UserInput → ℕ
requests [] = 0
requests (user_packet q ∷ is) = elim q.event [
  | stt_final_output t ↦ suc (requests is)
  | llm_generate_response c ↦ suc (requests is)
  | _ ↦ requests is
]
requests (timer_fires ∷ is) = requests is
requests (regenerates ∷ is) = requests is
requests (sends i ∷ is) = requests is

generations-append :
    (qs rs : List Packet) → generations (qs ++ rs) ≡ generations qs + generations rs
unfolding generations
generations-append [] rs = omega arith
generations-append (q ∷ qs) rs = ground (arith, generations-append qs rs)

requests-step :
    (i : UserInput) (is : List UserInput) → requests (i ∷ is) ≡ requests (i ∷ []) + requests is
unfolding requests
requests-step (user_packet q) is = ground arith
requests-step timer_fires is = omega arith
requests-step regenerates is = omega arith
requests-step (sends i) is = omega arith

-- A step without a timer: what it sends for no request, it takes from what is outstanding.
record Accounts (i : UserInput) (p p' : UserAggregator) (sent : ℕ) : Type 0 where
  still : p'.armed ≡ false
  enough : requests (i ∷ []) ≤ sent
  bounded : sent + outstanding p' ≤ requests (i ∷ []) + outstanding p

on_sends-outstanding : (i : ℕ) (p : UserAggregator) → outstanding (on_sends i p) ≤ outstanding p
unfolding on_sends signals
on_sends-outstanding i p = elim (Option-cases (take_callback i p.sending)) [
  | inl nothing ↦ rw nothing (omega arith)
  | inr ((c, others), taken) ↦
      rw taken (ground (arith, take_callback-length i p.sending c others taken))
]

user_step-Accounts :
    (i : UserInput) (p : UserAggregator)
    → NotSuspected i
    → p.armed ≡ false
    → Accounts i p (user_step i p).0 (generations (user_step i p).1)
unfolding user_step requests generations new_event_packet signals
user_step-Accounts (user_packet q) p n s = ground arith
user_step-Accounts timer_fires p n s = ground arith
user_step-Accounts regenerates p n s = ground arith
user_step-Accounts (sends i) p n s = ground (arith, on_sends-outstanding i p)

user_run-generations :
    (is : List UserInput) (p : UserAggregator)
    → All NotSuspected is
    → p.armed ≡ false
    → (requests is ≤ generations (user_run is p).1)
      × (generations (user_run is p).1 ≤ requests is + outstanding p)
unfolding user_run
user_run-generations [] p n s = unfold generations requests in (omega arith, omega arith)
user_run-generations (i ∷ is) p (n, ns) s =
    let p' = (user_step i p).0 in
    let a = user_step-Accounts i p n s in
    let (low, high) = user_run-generations is p' ns a.still in
    let sum = generations-append (user_step i p).1 (user_run is p').1 in
    let steps = requests-step i is in
    (omega (arith, sum, steps, a.enough, low), omega (arith, sum, steps, a.bounded, high))

pub user_run-TimerInv :
    (is : List UserInput) (p : UserAggregator) → TimerInv p → TimerInv (user_run is p).0
unfolding user_run
user_run-TimerInv [] p v = v
user_run-TimerInv (i ∷ is) p v = user_run-TimerInv is (user_step i p).0 (user_step-TimerInv i p v)

-- A transcript comes, after a run from any state whose running timer is in the field. Over any later
-- inputs with no new suspicion, the packets sent hold a request for a response for each finished
-- transcript and each request received; and further ones at most as many as callbacks of the timer
-- had started before the transcript and not sent yet, and one for a signal that waited then, if it
-- was not that of the timer in the field, which is drained. So none comes where no callback was
-- under way and no such signal waited.
pub regenerations_accounted :
    (before later : List UserInput) (q : Packet) (p : UserAggregator)
    → TimerInv p
    → is_transcript q.event ≡ true
    → All NotSuspected later
    → let p1 = (user_run before p).0 in
      let p2 = (user_step (user_packet q) p1).0 in
      let sent = generations (user_run later p2).1 in
      (requests later ≤ sent) × (sent ≤ requests later + (length p1.sending + undrained p1))
regenerations_accounted before later q p v t n =
    let p1 = (user_run before p).0 in
    let p2 = (user_step (user_packet q) p1).0 in
    let stopped = transcript-Stopped q p1 (user_run-TimerInv before p v) t in
    let (low, high) = user_run-generations later p2 n stopped.no_timer in
    let same = ap (λ cs. length cs) stopped.same_callbacks in
    (low, omega (arith, high, same, stopped.drained))

-- A timer that has expired stays in the field: after its signal has made the response again, the next
-- interim transcript still confirms an interruption, which the timer had judged to be none.
pub late_interim_confirms :
    (p : UserAggregator) (c : LlmContext) (q : Packet) (text : Text)
    → p.false_positive_timer ≡ some c
    → p.armed ≡ true
    → p.has_channel ≡ true
    → p.regenerate ≡ none
    → p.sending ≡ []
    → q.event ≡ stt_interim_output text
    → let (p', sent) = user_run (timer_fires ∷ sends 0 ∷ regenerates ∷ []) p in
      (sent ≡ to_next (llm_generate_response c) ∷ [])
      × ((user_step (user_packet q) p').1
          ≡ to_next vad_interruption_confirmed
            ∷ to_next (llm_prepare_interim_filler text p.context)
            ∷ q
            ∷ [])
unfolding user_run user_step
late_interim_confirms p c q text t a ch r empty e = ground arith
