-- ===== src/Vad/Suspicion.antt =====
-- When the voice activity handler suspects an interruption.
use interact_kit_sdk.Audio.Convert.{AudioChunk}
use interact_kit_sdk.Prelude.{
  ℕ, ◌≡◌, refl, ◌↔◌, inl, inr, Bool, true, false, not, ◌&&◌, ◌||◌, Option, none, some, List, [],
  ◌∷◌, ◌++◌, arith, Bool-cases,
}
use interact_kit_sdk.Vad.Runs.{reset_patience_active}
use interact_kit_sdk.Vad.{
  fails, Arrival, VadHandler, sends, vad_dispatch, VadConfig, reset_patience, on_answer, on_speech,
  vad_handle_event, on_no_speech, Output, Confidences,
}
use interact_kit_sdk.Events.{
  transport_audio_input, new_event_packet, vad_interruption_suspected, Event,
}

module _ (f : Confidences) where
  unfoldable pub is_suspicion : Event → Bool
  is_suspicion vad_interruption_suspected = true
  is_suspicion _ = false

  -- the detector answers, with the confidence that the configuration asks for
  unfoldable pub confident : VadConfig f → Option f.Float → Bool
  confident k none = false
  confident k (some c) = f.at_least c k.min_confidence

  unfoldable pub suspects : List (Output f) → Bool
  suspects [] = false
  suspects (fails ∷ out) = suspects out
  suspects (sends p ∷ out) = is_suspicion p.event || suspects out

  suspects-append : (xs ys : List (Output f)) → suspects (xs ++ ys) ≡ (suspects xs || suspects ys)
  unfolding suspects
  suspects-append [] ys = refl
  suspects-append (fails ∷ xs) ys = suspects-append xs ys
  suspects-append (sends p ∷ xs) ys = ground (arith, suspects-append xs ys)

  on_speech-suspects :
      (k : VadConfig f) (now : ℕ) (h : VadHandler f)
      → suspects (on_speech f k now h).1
        ≡ (not h.is_speech_active && (h.bot_speaking && k.allow_interruptions))
  unfolding on_speech suspects is_suspicion new_event_packet
  on_speech-suspects k now h = ground arith

  on_no_speech-suspects : (now : ℕ) (h : VadHandler f) → suspects (on_no_speech f now h).1 ≡ false
  unfolding on_no_speech suspects is_suspicion new_event_packet
  on_no_speech-suspects now h = ground arith

  on_answer-suspects :
      (k : VadConfig f) (now : ℕ) (o : Option f.Float) (h : VadHandler f)
      → suspects (on_answer f k now o h).1
        ≡ (confident k o && (not h.is_speech_active && (h.bot_speaking && k.allow_interruptions)))
  unfolding on_answer suspects confident
  on_answer-suspects k now none h = refl
  on_answer-suspects k now (some x) h = elim (Bool-cases (f.at_least x k.min_confidence)) [
    | inl e ↦ rw e (on_speech-suspects k now h)
    | inr e ↦ rw e (on_no_speech-suspects now h)
  ]

  reset_patience_bot :
      (now : ℕ) (t : Option ℕ) (h : VadHandler f)
      → (reset_patience f now t h).bot_speaking ≡ h.bot_speaking
  unfolding reset_patience
  reset_patience_bot now t h = ground arith

  -- An audio packet makes the handler suspect an interruption exactly where the detector is sure of
  -- speech, no utterance was open, the bot is speaking and interruptions are allowed.
  pub suspects_iff :
      (k : VadConfig f) (a : Arrival f) (h : VadHandler f) (c : AudioChunk)
      → a.packet.event ≡ transport_audio_input c
      → (suspects (vad_handle_event f k a h).1 ≡ true) ↔ (
          (confident k a.answer ≡ true)
          × (h.is_speech_active ≡ false)
          × (h.bot_speaking ≡ true)
          × (k.allow_interruptions ≡ true))
  unfolding vad_handle_event vad_dispatch suspects is_suspicion
  suspects_iff k a h c e =
      let t = h.last_interruption_time in
      let h1 = reset_patience f a.now t h in
      rw e (
        ground (
          arith,
          suspects-append (on_answer f k a.now a.answer h1).1 (sends a.packet ∷ []),
          on_answer-suspects k a.now a.answer h1,
          reset_patience_active f a.now t h,
          reset_patience_bot a.now t h,
        ))
