-- ===== src/Activity.antt =====
-- handlers/activity_control/activity_control_handler.go. The handler runs in one goroutine, the
-- event loop; only the timer's callback runs elsewhere. A handler call returns the new state and
-- the packets it sends, in order. The figures that are only logged are left out: approxPlayed,
-- unplayed, and with them the rollback duration.
pub mod Invariant
pub mod Stale
use interact_kit_sdk.Prelude.{
  ℕ, suc, ◌-◌, ◌*◌, ◌/◌, Bool, true, false, ◌||◌, Option, none, some, List, [], ◌∷◌, ◌++◌, ◌==◌,
  if◌then◌else◌, length,
}
use interact_kit_sdk.Audio.Convert.{AudioChunk}
use interact_kit_sdk.Events.{
  Event, tts_speaking_started, tts_speaking_ended, tts_output, llm_response_started,
  vad_interruption_suspected, vad_interruption_confirmed, top_service, Packet, new_event_packet,
}

-- The `float64` seconds that the handler adds up, as the machine computes them: the sum, and the
-- quotient of two whole numbers.
pub record Seconds : Type 1 where
  pub Float : Type 0
  pub zero_s : Float
  pub add : Float → Float → Float
  pub quotient : ℕ → ℕ → Float

-- What can happen to the handler: a packet arrives at a time, the timer fires, or the event loop
-- receives the resume signal (which it can only where there is one).
pub data Input : Type 0 where
  arrives : ℕ → Packet → Input
  fires : Input
  orphan : Input
  resumes : Input

module _ (f : Seconds) where
  open f use {Float, zero_s, add, quotient}

  -- `GetDurationInSeconds` of core/media.go
  unfoldable pub duration : AudioChunk → Float
  duration c =
      if c.sample_rate == 0 || c.channels == 0
      then zero_s
      else quotient (length c.samples / (2 * c.channels)) c.sample_rate

  -- `speaking_start` is none for the zero time. `timer` is `confirmTimer != nil`, `armed` says that
  -- this timer has neither fired nor been stopped, `orphans` counts the running timers that
  -- `confirmTimer` no longer points to, and `resume` says that `resumeChan` holds a signal.
  pub record Handler : Type 0 where
    pub cached_chunks : List Packet
    pub speaking_start : Option ℕ
    pub total_sent : Float
    pub is_speaking : Bool
    pub is_suspended : Bool
    pub timer : Bool
    pub armed : Bool
    pub orphans : ℕ
    pub resume : Bool

  abbrev pub new_handler : Handler
  new_handler = record {
    cached_chunks = [];
    speaking_start = none;
    total_sent = zero_s;
    is_speaking = false;
    is_suspended = false;
    timer = false;
    armed = false;
    orphans = 0;
    resume = false;
  }

  -- A new timer replaces the one in the field, and leaves it running.
  unfoldable pub start_confirm_timer : Handler → Handler
  start_confirm_timer h = record h {
    timer = true;
    armed = true;
    orphans = if h.armed then suc h.orphans else h.orphans;
  }

  unfoldable pub stop_confirm_timer : Handler → Handler
  stop_confirm_timer h = if h.timer then record h { timer = false; armed = false } else h

  -- the callback of a timer: a send that is dropped where the channel of size 1 is full
  unfoldable pub timer_fires : Handler → Handler
  timer_fires h = if h.armed then record h { armed = false; resume = true } else h

  unfoldable pub orphan_fires : Handler → Handler
  orphan_fires h = if h.orphans == 0 then h else record h { orphans = h.orphans - 1; resume = true }

  unfoldable pub on_tts_output : Packet → AudioChunk → Handler → Handler × List Packet
  on_tts_output packet chunk h =
      if h.is_suspended
      then (record h { cached_chunks = h.cached_chunks ++ packet ∷ [] }, [])
      else (record h { total_sent = add h.total_sent (duration chunk) }, packet ∷ [])

  unfoldable pub on_suspected : Packet → Handler → Handler × List Packet
  unfolding start_confirm_timer
  on_suspected packet h = (
    if h.is_suspended then h else start_confirm_timer (record h { is_suspended = true }),
    packet ∷ [],
  )

  unfoldable pub on_confirmed : Packet → Handler → Handler × List Packet
  unfolding stop_confirm_timer new_event_packet
  on_confirmed packet h =
      let s = stop_confirm_timer h in
      let ended = new_event_packet tts_speaking_ended top_service "ActivityControlHandler" in
      (
        record s {
          cached_chunks = [];
          is_suspended = false;
          is_speaking = false;
          total_sent = zero_s;
          speaking_start = none;
        },
        if h.is_speaking then ended ∷ packet ∷ [] else packet ∷ [],
      )

  -- the type switch of `HandleEvent`; `now` is `time.Now()`
  unfoldable pub dispatch : ℕ → Packet → Event → Handler → Handler × List Packet
  unfolding on_tts_output on_suspected on_confirmed
  dispatch now packet tts_speaking_started h =
      (record h { speaking_start = some now; total_sent = zero_s; is_speaking = true }, packet ∷ [])
  dispatch now packet tts_speaking_ended h = (record h { is_speaking = false }, packet ∷ [])
  dispatch now packet llm_response_started h =
      (record h { cached_chunks = []; speaking_start = none; total_sent = zero_s }, packet ∷ [])
  dispatch now packet (tts_output chunk) h = on_tts_output packet chunk h
  dispatch now packet vad_interruption_suspected h = on_suspected packet h
  dispatch now packet vad_interruption_confirmed h = on_confirmed packet h
  dispatch now packet _ h = (h, packet ∷ [])

  unfoldable pub handle_event : ℕ → Packet → Handler → Handler × List Packet
  unfolding dispatch
  handle_event now packet h = dispatch now packet packet.event h

  -- the sum that `onFalsePositive` adds for a cached packet
  unfoldable pub count_sent : Event → Float → Float
  count_sent (tts_output chunk) t = add t (duration chunk)
  count_sent _ t = t

  unfoldable pub resend : List Packet → Float → Float
  unfolding count_sent
  resend [] t = t
  resend (p ∷ ps) t = resend ps (count_sent p.event t)

  unfoldable pub on_false_positive : Handler → Handler × List Packet
  on_false_positive h = (
    record h {
      cached_chunks = [];
      is_suspended = false;
      total_sent = resend h.cached_chunks h.total_sent;
    },
    h.cached_chunks,
  )

  unfoldable pub step : Input → Handler → Handler × List Packet
  unfolding handle_event timer_fires orphan_fires on_false_positive
  step (arrives now p) h = handle_event now p h
  step fires h = (timer_fires h, [])
  step orphan h = (orphan_fires h, [])
  step resumes h = if h.resume then on_false_positive (record h { resume = false }) else (h, [])

  unfoldable pub run : List Input → Handler → Handler × List Packet
  run [] h = (h, [])
  run (i ∷ is) h = let (h', sent) = step i h in let (h'', later) = run is h' in (h'', sent ++ later)
