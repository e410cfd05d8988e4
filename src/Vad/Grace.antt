-- ===== src/Vad/Grace.antt =====
-- The grace period of the voice activity handler.
use interact_kit_sdk.Events.{vad_silence, transport_audio_input}
use interact_kit_sdk.Audio.Convert.{AudioChunk}
use interact_kit_sdk.Prelude.{
  ℕ, ◌≤◌, ◌≡◌, ◌⊎◌, inl, inr, true, false, Option, none, some, List, [], ◌∷◌, arith, Bool-cases,
}
use interact_kit_sdk.Vad.Runs.{reset_patience_active}
use interact_kit_sdk.Vad.{
  sends, emits, transport_audio_input, vad_dispatch, vad_handle_event, on_answer, Arrival, vad_run,
  new_vad_handler, reset_patience, on_no_speech, within_grace, on_speech, Confidences, VadConfig,
  VadHandler,
}

module _ (f : Confidences) (k : VadConfig f) where
  -- At a time: the grace period is at least its base, and an utterance is open, or there was no
  -- speech yet, or the last speech is longer ago than the grace period.
  pub record Calm (now : ℕ) (h : VadHandler f) : Type 0 where
    pub base_le : h.base_grace_period ≤ h.current_grace_period
    pub open_or_over :
        (h.is_speech_active ≡ true)
        ⊎ ((h.is_speech_active ≡ false)
            × (within_grace f now h.current_grace_period h.last_speech_time ≡ false))

  pub new-Calm : (now : ℕ) → Calm now (new_vad_handler f)
  unfolding within_grace
  new-Calm now = ground arith

  Calm-later : (t now : ℕ) (h : VadHandler f) → t ≤ now → Calm t h → Calm now h
  unfolding within_grace
  Calm-later t now h le c = ground arith

  reset_patience-Calm :
      (now : ℕ) (t : Option ℕ) (h : VadHandler f) → Calm now h → Calm now (reset_patience f now t h)
  unfolding reset_patience within_grace
  reset_patience-Calm now t h c = ground arith

  on_speech-Calm : (now : ℕ) (h : VadHandler f) → Calm now h → Calm now (on_speech f k now h).0
  unfolding on_speech within_grace
  on_speech-Calm now h c = ground arith

  on_no_speech-Calm : (now : ℕ) (h : VadHandler f) → Calm now h → Calm now (on_no_speech f now h).0
  unfolding on_no_speech
  on_no_speech-Calm now h c = ground arith

  on_answer-Calm :
      (now : ℕ) (o : Option f.Float) (h : VadHandler f)
      → Calm now h
      → Calm now (on_answer f k now o h).0
  unfolding on_answer
  on_answer-Calm now none h c = c
  on_answer-Calm now (some x) h c = elim (Bool-cases (f.at_least x k.min_confidence)) [
    | inl e ↦ rw e (on_speech-Calm now h c)
    | inr e ↦ rw e (on_no_speech-Calm now h c)
  ]

  vad_handle_event-Calm :
      (a : Arrival f) (h : VadHandler f) → Calm a.now h → Calm a.now (vad_handle_event f k a h).0
  unfolding vad_handle_event vad_dispatch
  vad_handle_event-Calm a h c =
      let t = h.last_interruption_time in
      ground (
        arith,
        on_answer-Calm a.now a.answer (reset_patience f a.now t h)
            (reset_patience-Calm a.now t h c),
      )

  -- arrivals at times that do not decrease, none before the first time
  abbrev pub InOrder : ℕ → List (Arrival f) → Type 0
  InOrder t [] = Unit
  InOrder t (a ∷ as') = (t ≤ a.now) × InOrder a.now as'

  abbrev pub last_time : ℕ → List (Arrival f) → ℕ
  last_time t [] = t
  last_time t (a ∷ as') = last_time a.now as'

  vad_run-Calm :
      (t : ℕ) (as' : List (Arrival f)) (h : VadHandler f)
      → InOrder t as'
      → Calm t h
      → Calm (last_time t as') (vad_run f k as' h).0
  unfolding vad_run
  vad_run-Calm t [] h o c = c
  vad_run-Calm t (a ∷ as') h (le, later) c =
      vad_run-Calm a.now as' (vad_handle_event f k a h).0 later
        (vad_handle_event-Calm a h (Calm-later t a.now h le c))

  on_no_speech_silent :
      (now : ℕ) (h : VadHandler f)
      → Calm now h
      → h.is_speech_active ≡ false
      → ((on_no_speech f now h).1 ≡ emits f vad_silence ∷ [])
        × ((on_no_speech f now h).0.is_speech_active ≡ false)
  unfolding on_no_speech
  on_no_speech_silent now h c shut = ground arith

  vad_handle_event_silent :
      (a : Arrival f) (h : VadHandler f) (c : AudioChunk) (x : f.Float)
      → Calm a.now h
      → h.is_speech_active ≡ false
      → a.packet.event ≡ transport_audio_input c
      → a.answer ≡ some x
      → f.at_least x k.min_confidence ≡ false
      → let (h', out) = vad_handle_event f k a h in
        (out ≡ emits f vad_silence ∷ sends a.packet ∷ []) × (h'.is_speech_active ≡ false)
  unfolding vad_handle_event vad_dispatch on_answer
  vad_handle_event_silent a h c x calm shut audio answered low =
      let t = h.last_interruption_time in
      let h1 = reset_patience f a.now t h in
      rw (audio, answered, low)
        (ground (
          arith,
          on_no_speech_silent a.now h1 (reset_patience-Calm a.now t h calm),
          reset_patience_active f a.now t h,
        ))

  -- A chunk without speech never opens an utterance: where a run from the start, at times that do
  -- not decrease, has left no utterance open, the handler answers a later audio packet of too low a
  -- confidence with silence and the packet alone, and no utterance is open after it.
  pub quiet_chunk_stays_silent :
      (as' : List (Arrival f)) (a : Arrival f) (c : AudioChunk) (x : f.Float)
      → InOrder 0 as'
      → last_time 0 as' ≤ a.now
      → (vad_run f k as' (new_vad_handler f)).0.is_speech_active ≡ false
      → a.packet.event ≡ transport_audio_input c
      → a.answer ≡ some x
      → f.at_least x k.min_confidence ≡ false
      → let (h', out) = vad_handle_event f k a (vad_run f k as' (new_vad_handler f)).0 in
        (out ≡ emits f vad_silence ∷ sends a.packet ∷ []) × (h'.is_speech_active ≡ false)
  quiet_chunk_stays_silent as' a c x o le shut audio answered low =
      let h = (vad_run f k as' (new_vad_handler f)).0 in
      let calm = vad_run-Calm 0 as' (new_vad_handler f) o (new-Calm 0) in
      vad_handle_event_silent a h c x (Calm-later (last_time 0 as') a.now h le calm) shut audio
        answered low
