-- ===== src/Activity/Invariant.antt =====
-- Runs of the activity control handler: its invariant, the audio, and the seconds counted.
use interact_kit_sdk.Prelude.{
  ◌≡◌, refl, sym, ap, ◌∙◌, ◌≢◌, ◌⊎◌, Bool, true, false, List, [], ◌∷◌, ◌++◌, append-nil,
  append_assoc, arith, if◌then◌else◌, All,
}
use interact_kit_sdk.Events.{
  tts_speaking_started, Event, tts_output, llm_response_started, vad_interruption_confirmed, Packet,
}
use interact_kit_sdk.Activity.{
  count_sent, run, resend, Seconds, Handler, new_handler, Input, arrives, fires, orphan, resumes,
  step,
}

abbrev pub is_audio : Event → Bool
is_audio (tts_output _) = true
is_audio _ = false

-- the audio packets of a list, in their order
pub audio : List Packet → List Packet
audio [] = []
audio (p ∷ ps) = if is_audio p.event then p ∷ audio ps else audio ps

pub audio-append : (ps qs : List Packet) → audio (ps ++ qs) ≡ audio ps ++ audio qs
unfolding audio
audio-append [] qs = refl
audio-append (p ∷ ps) qs = ground (arith, audio-append ps qs)

-- the packets that a list of inputs brings
abbrev pub received : List Input → List Packet
received [] = []
received (arrives now p ∷ is) = p ∷ received is
received (fires ∷ is) = received is
received (orphan ∷ is) = received is
received (resumes ∷ is) = received is

-- the events at which the handler throws its cache away
abbrev pub drops : Event → Bool
drops llm_response_started = true
drops vad_interruption_confirmed = true
drops _ = false

abbrev pub Keeps : Input → Type 0
Keeps (arrives now p) = drops p.event ≡ false
Keeps _ = Unit

module _ (f : Seconds) where
  pub record Inv (h : Handler f) : Type 0 where
    pub only_audio : audio h.cached_chunks ≡ h.cached_chunks
    pub forwards_or_resumes :
        ((h.is_suspended ≡ false) × (h.cached_chunks ≡ []))
        ⊎ ((h.is_suspended ≡ true) × ((h.armed ≡ true) ⊎ (h.resume ≡ true)))

  pub new-Inv : Inv (new_handler f)
  unfolding audio
  new-Inv = ground arith

  pub step-Inv : (i : Input) (h : Handler f) → Inv h → Inv (step f i h).0
  unfolding step audio
  step-Inv (arrives now p) h v = ground (arith, audio-append h.cached_chunks (p ∷ []))
  step-Inv fires h v = ground arith
  step-Inv orphan h v = ground arith
  step-Inv resumes h v = ground arith

  -- one input: what was cached and what came in is what goes out and what is cached now
  step-audio :
      (i : Input) (h : Handler f)
      → Inv h
      → Keeps i
      → audio (step f i h).1 ++ (step f i h).0.cached_chunks
        ≡ h.cached_chunks ++ audio (received (i ∷ []))
  unfolding step audio
  step-audio (arrives now p) h v k = ground (arith, append-nil h.cached_chunks)
  step-audio fires h v k = ground (arith, append-nil h.cached_chunks)
  step-audio orphan h v k = ground (arith, append-nil h.cached_chunks)
  step-audio resumes h v k = ground (arith, append-nil h.cached_chunks)

  -- Any inputs keep the invariant of the handler, whatever the timers do: only audio is cached, and
  -- the handler forwards with an empty cache, or is suspended with a running confirmation timer or
  -- a pending resume signal.
  pub run-Inv : (is : List Input) (h : Handler f) → Inv h → Inv (run f is h).0
  unfolding run
  run-Inv [] h v = v
  run-Inv (i ∷ is) h v = run-Inv is (step f i h).0 (step-Inv i h v)

  received-audio :
      (i : Input) (is : List Input)
      → audio (received (i ∷ is)) ≡ audio (received (i ∷ [])) ++ audio (received is)
  unfolding audio
  received-audio (arrives now p) is = ground arith
  received-audio fires is = refl
  received-audio orphan is = refl
  received-audio resumes is = refl

  -- Over any inputs with neither a confirmed interruption nor the start of a response, whatever the
  -- timers do: the audio sent, and then the audio still cached, is the audio that was cached at
  -- first and then the audio received, in the same order. None is lost, doubled or overtaken.
  pub run-audio :
      (is : List Input) (h : Handler f)
      → Inv h
      → All Keeps is
      → audio (run f is h).1 ++ (run f is h).0.cached_chunks
        ≡ h.cached_chunks ++ audio (received is)
  unfolding run audio
  run-audio [] h v k = rw append-nil
  run-audio (i ∷ is) h v (k, ks) =
      let h' = (step f i h).0 in
      let rest = run-audio is h' (step-Inv i h v) ks in
      rw (
        audio-append (step f i h).1 (run f is h').1,
        append_assoc,
        rest,
        ← append_assoc,
        step-audio i h v k,
        append_assoc,
        ← received-audio i is,
      )

  -- the events that set the sum of the seconds sent to 0
  abbrev pub NoReset : Input → Type 0
  NoReset (arrives now p) = (drops p.event ≡ false) × (p.event ≢ tts_speaking_started)
  NoReset _ = Unit

  resend-append :
      (ps qs : List Packet) (t : f.Float) → resend f (ps ++ qs) t ≡ resend f qs (resend f ps t)
  unfolding resend
  resend-append [] qs t = refl
  resend-append (p ∷ ps) qs t = resend-append ps qs (count_sent f p.event t)

  step-total_sent :
      (i : Input) (h : Handler f)
      → NoReset i
      → (step f i h).0.total_sent ≡ resend f (step f i h).1 h.total_sent
  unfolding step resend
  step-total_sent (arrives now p) h k = ground arith
  step-total_sent fires h k = ground arith
  step-total_sent orphan h k = ground arith
  step-total_sent resumes h k = ground arith

  -- Between two events that reset it, the sum of the seconds sent is the old sum with the length
  -- of each audio packet sent added in the order of sending, whether it was sent at once or cached.
  pub run-total_sent :
      (is : List Input) (h : Handler f)
      → All NoReset is
      → (run f is h).0.total_sent ≡ resend f (run f is h).1 h.total_sent
  unfolding run
  run-total_sent [] h k = unfold resend in refl
  run-total_sent (i ∷ is) h (k, ks) =
      let h' = (step f i h).0 in
      run-total_sent is h' ks
      ∙ ap (resend f (run f is h').1) (step-total_sent i h k)
      ∙ sym (resend-append (step f i h).1 (run f is h').1 h.total_sent)
