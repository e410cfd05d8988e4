-- ===== src/Vad.antt =====
-- handlers/vad/vad_handler.go. The events of the handler come from one goroutine, and a call of
-- `HandleEvent` returns the new state and what is sent, in order. Times and durations are native
-- numbers of nanoseconds: a clock that runs backwards gives the difference 0 here and a negative
-- one there, and the comparisons with a duration agree. `isInGracePeriod` is never read.
pub mod Runs
pub mod Grace
pub mod Suspicion
use interact_kit_sdk.Prelude.{
  ℕ, ◌+◌, ◌-◌, Bool, true, false, ◌&&◌, Option, none, some, List, [], ◌∷◌, ◌++◌, ltb, leb,
  if◌then◌else◌,
}
use interact_kit_sdk.Events.{
  tts_speaking_ended, tts_speaking_started, vad_silence, vad_interruption_suspected,
  vad_user_speech_ended, vad_user_speech_started, vad_user_speaking, transport_audio_input, Event,
  Packet, next_service, new_event_packet,
}

-- `float32` confidences, as the machine compares them
pub record Confidences : Type 1 where
  pub Float : Type 0
  pub at_least : Float → Float → Bool

module _ (f : Confidences) where
  open f use {Float, at_least}

  -- `patience_increase` is the duration that the `float32` seconds of the configuration convert to.
  pub record VadConfig : Type 0 where
    pub min_confidence : Float
    pub allow_interruptions : Bool
    pub patience_increase : ℕ

  -- A packet, the time at which it is handled, and what the voice detector answers to its audio:
  -- `none` is an error.
  pub record Arrival : Type 0 where
    pub now : ℕ
    pub packet : Packet
    pub answer : Option Float

  -- what the handler gives away: a packet, or an error for the fatal error channel
  pub data Output : Type 0 where
    sends : Packet → Output
    fails : Output

  -- `none` is the zero time
  pub record VadHandler : Type 0 where
    pub last_speech_time : Option ℕ
    pub is_in_grace_period : Bool
    pub is_speech_active : Bool
    pub bot_speaking : Bool
    pub base_grace_period : ℕ
    pub current_grace_period : ℕ
    pub last_interruption_time : Option ℕ
    pub patience_reset_duration : ℕ

  abbrev pub new_vad_handler : VadHandler
  new_vad_handler = record {
    last_speech_time = none;
    is_in_grace_period = false;
    is_speech_active = false;
    bot_speaking = false;
    base_grace_period = 300000000;
    current_grace_period = 300000000;
    last_interruption_time = none;
    patience_reset_duration = 5000000000;
  }

  -- a packet of this handler to the next one
  abbrev pub emits : Event → Output
  emits e = sends (new_event_packet e next_service "VADHandler")

  unfoldable pub reset_patience : ℕ → Option ℕ → VadHandler → VadHandler
  reset_patience now none h = h
  reset_patience now (some t) h =
      if ltb h.patience_reset_duration (now - t)
      then record h { current_grace_period = h.base_grace_period; last_interruption_time = none }
      else h

  -- the branch of a chunk with speech
  unfoldable pub on_speech : VadConfig → ℕ → VadHandler → VadHandler × List Output
  on_speech config now h =
      let h1 = record h { last_speech_time = some now; is_in_grace_period = false } in
      let h2 = record h1 { is_speech_active = true } in
      let h3 = record h2 {
        current_grace_period = h.base_grace_period + config.patience_increase;
        last_interruption_time = some now;
      } in
      if h.is_speech_active
      then (h1, emits vad_user_speaking ∷ [])
      else if h.bot_speaking && config.allow_interruptions
      then (
        h3,
        emits vad_user_speech_started
            ∷ emits vad_interruption_suspected
            ∷ emits vad_user_speaking
            ∷ [],
      )
      else (h2, emits vad_user_speech_started ∷ emits vad_user_speaking ∷ [])

  -- `!lastSpeechTime.IsZero() && timeSinceLastSpeech <= currentGracePeriod`
  unfoldable pub within_grace : ℕ → ℕ → Option ℕ → Bool
  within_grace now grace none = false
  within_grace now grace (some t) = leb (now - t) grace

  -- the branch of a chunk without speech
  unfoldable pub on_no_speech : ℕ → VadHandler → VadHandler × List Output
  unfolding within_grace
  on_no_speech now h =
      if within_grace now h.current_grace_period h.last_speech_time
      then if h.is_speech_active
        then (record h { is_in_grace_period = true }, emits vad_user_speaking ∷ [])
        else (
          record h { is_in_grace_period = true; is_speech_active = true },
          emits vad_user_speech_started ∷ emits vad_user_speaking ∷ [],
        )
      else if h.is_speech_active
      then (
        record h { is_in_grace_period = false; is_speech_active = false },
        emits vad_user_speech_ended ∷ emits vad_silence ∷ [],
      )
      else (record h { is_in_grace_period = false }, emits vad_silence ∷ [])

  -- `handleTransportAudio` once the detector has answered
  unfoldable pub on_answer : VadConfig → ℕ → Option Float → VadHandler → VadHandler × List Output
  unfolding on_speech on_no_speech
  on_answer config now none h = (h, fails ∷ [])
  on_answer config now (some confidence) h =
      if at_least confidence config.min_confidence
      then on_speech config now h
      else on_no_speech now h

  unfoldable pub handle_transport_audio :
      VadConfig → ℕ → Option Float → VadHandler → VadHandler × List Output
  unfolding reset_patience on_answer
  handle_transport_audio config now answer h =
      on_answer config now answer (reset_patience now h.last_interruption_time h)

  -- the type switch of `HandleEvent`
  unfoldable pub vad_dispatch :
      VadConfig → ℕ → Option Float → Event → VadHandler → VadHandler × List Output
  unfolding handle_transport_audio
  vad_dispatch config now answer (transport_audio_input chunk) h =
      handle_transport_audio config now answer h
  vad_dispatch config now answer tts_speaking_started h = (record h { bot_speaking = true }, [])
  vad_dispatch config now answer tts_speaking_ended h = (record h { bot_speaking = false }, [])
  vad_dispatch config now answer _ h = (h, [])

  unfoldable pub vad_handle_event : VadConfig → Arrival → VadHandler → VadHandler × List Output
  unfolding vad_dispatch
  vad_handle_event config a h =
      let (h', out) = vad_dispatch config a.now a.answer a.packet.event h in
      (h', out ++ sends a.packet ∷ [])

  unfoldable pub vad_run : VadConfig → List Arrival → VadHandler → VadHandler × List Output
  vad_run config [] h = (h, [])
  vad_run config (a ∷ as') h =
      let (h', out) = vad_handle_event config a h in
      let (h'', later) = vad_run config as' h' in (h'', out ++ later)
