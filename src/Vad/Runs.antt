-- ===== src/Vad/Runs.antt =====
-- What the voice activity handler sends over a run.
use interact_kit_sdk.Prelude.{
  ℕ, ◌≡◌, refl, ◌∙◌, inl, inr, Bool, true, false, Option, none, some, List, [], ◌∷◌, ◌++◌, arith,
  Bool-cases, Option-cases, All,
}
use interact_kit_sdk.Events.{
  Packet, new_event_packet, vad_silence, vad_user_speaking, vad_user_speech_ended,
  vad_user_speech_started, Event,
}
use interact_kit_sdk.Vad.{
  vad_handle_event, vad_run, on_speech, reset_patience, on_answer, on_no_speech, vad_dispatch,
  Confidences, VadConfig, Arrival, Output, sends, fails, VadHandler,
}

module _ (f : Confidences) where
  -- Is an utterance open after an event, if it was (not) before? `none`: the event cannot be there.
  unfoldable pub track_event : Event → Bool → Option Bool
  track_event vad_user_speech_started false = some true
  track_event vad_user_speech_started true = none
  track_event vad_user_speech_ended true = some false
  track_event vad_user_speech_ended false = none
  track_event vad_user_speaking true = some true
  track_event vad_user_speaking false = none
  track_event vad_silence false = some false
  track_event vad_silence true = none
  track_event _ open' = some open'

  unfoldable pub track : List (Output f) → Bool → Option Bool
  track [] open' = some open'
  track (fails ∷ out) open' = track out open'
  track (sends p ∷ out) open' = elim (track_event p.event open') [
    | none ↦ none
    | some next ↦ track out next
  ]

  -- the events that this handler brings in
  unfoldable pub is_verdict : Event → Bool
  is_verdict vad_user_speech_started = true
  is_verdict vad_user_speech_ended = true
  is_verdict vad_user_speaking = true
  is_verdict vad_silence = true
  is_verdict _ = false

  abbrev pub Foreign : Arrival f → Type 0
  Foreign a = is_verdict a.packet.event ≡ false

  track_event-Foreign : (e : Event) (b : Bool) → is_verdict e ≡ false → track_event e b ≡ some b
  unfolding track_event is_verdict
  track_event-Foreign e b h = ground arith

  track-append :
      (xs ys : List (Output f)) (b c : Bool) → track xs b ≡ some c → track (xs ++ ys) b ≡ track ys c
  unfolding track
  track-append [] ys b c h = ground arith
  track-append (fails ∷ xs) ys b c h = track-append xs ys b c h
  track-append (sends p ∷ xs) ys b c h = elim (Option-cases (track_event p.event b)) [
    | inl e ↦ ground arith
    | inr (d, e) ↦ ground (arith, track-append xs ys d c)
  ]

  -- the handler's own outputs open and close its utterance
  abbrev Tracks : VadHandler f → VadHandler f × List (Output f) → Type 0
  Tracks h (h', out) = track out h.is_speech_active ≡ some h'.is_speech_active

  pub reset_patience_active :
      (now : ℕ) (t : Option ℕ) (h : VadHandler f)
      → (reset_patience f now t h).is_speech_active ≡ h.is_speech_active
  unfolding reset_patience
  reset_patience_active now t h = ground arith

  on_speech-Tracks : (k : VadConfig f) (now : ℕ) (h : VadHandler f) → Tracks h (on_speech f k now h)
  unfolding on_speech track track_event new_event_packet
  on_speech-Tracks k now h = elim (Bool-cases h.is_speech_active) [
    | inl e ↦ ground (arith, e)
    | inr e ↦ ground (arith, e)
  ]

  on_no_speech-Tracks : (now : ℕ) (h : VadHandler f) → Tracks h (on_no_speech f now h)
  unfolding on_no_speech track track_event new_event_packet
  on_no_speech-Tracks now h = elim (Bool-cases h.is_speech_active) [
    | inl e ↦ ground (arith, e)
    | inr e ↦ ground (arith, e)
  ]

  on_answer-Tracks :
      (k : VadConfig f) (now : ℕ) (o : Option f.Float) (h : VadHandler f)
      → Tracks h (on_answer f k now o h)
  unfolding on_answer track
  on_answer-Tracks k now none h = refl
  on_answer-Tracks k now (some c) h = elim (Bool-cases (f.at_least c k.min_confidence)) [
    | inl e ↦ rw e (on_speech-Tracks k now h)
    | inr e ↦ rw e (on_no_speech-Tracks now h)
  ]

  vad_dispatch-Tracks :
      (k : VadConfig f) (a : Arrival f) (h : VadHandler f)
      → Tracks h (vad_dispatch f k a.now a.answer a.packet.event h)
  unfolding vad_dispatch track
  vad_dispatch-Tracks k a h =
      let h1 = reset_patience f a.now h.last_interruption_time h in
      ground (
        arith,
        on_answer-Tracks k a.now a.answer h1,
        reset_patience_active a.now h.last_interruption_time h,
      )

  track-forwarded :
      (p : Packet) (b : Bool) → is_verdict p.event ≡ false → track (sends p ∷ []) b ≡ some b
  unfolding track
  track-forwarded p b h = ground (arith, track_event-Foreign p.event b h)

  vad_handle_event-Tracks :
      (k : VadConfig f) (a : Arrival f) (h : VadHandler f)
      → Foreign a
      → Tracks h (vad_handle_event f k a h)
  unfolding vad_handle_event
  vad_handle_event-Tracks k a h foreign =
      let (h', out) = vad_dispatch f k a.now a.answer a.packet.event h in
      let open' = h'.is_speech_active in
      track-append out (sends a.packet ∷ []) h.is_speech_active open' (vad_dispatch-Tracks k a h)
      ∙ track-forwarded a.packet open' foreign

  -- Over any packets but the speech events of another detector: a start of speech comes only where
  -- no utterance is open, an end and a sign of speech only where one is open, and silence only
  -- where none is; and the utterance that is open at the end is the one that the handler holds open.
  pub vad_run-track :
      (k : VadConfig f) (as' : List (Arrival f)) (h : VadHandler f)
      → All Foreign as'
      → track (vad_run f k as' h).1 h.is_speech_active ≡ some (vad_run f k as' h).0.is_speech_active
  unfolding vad_run
  vad_run-track k [] h foreign = unfold track in refl
  vad_run-track k (a ∷ as') h (here, later) =
      let (h', out) = vad_handle_event f k a h in
      track-append out (vad_run f k as' h').1 h.is_speech_active h'.is_speech_active
        (vad_handle_event-Tracks k a h here)
      ∙ vad_run-track k as' h' later
