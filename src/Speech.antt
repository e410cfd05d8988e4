-- ===== src/Speech.antt =====
-- handlers/tts/tts_handler.go: `HandleEvent` of the TTS handler, under its mutex one step. What it
-- does outside its own fields are the calls that it makes, in order; the answers of the service are
-- inputs. The simulation loop is the reader of the calls `simulates` and `resets_simulation`: both
-- sends are dropped where its channel is full.
pub mod Normalize
pub mod Segments
pub mod Flushes
pub mod Newline
pub mod Simulation
pub mod Speaking
pub mod Speaker
pub mod Delivery
pub mod Drain
use interact_kit_sdk.Prelude.{
  ℕ, Bool, true, false, not, ◌&&◌, ◌||◌, List, [], ◌∷◌, ◌++◌, leb, if◌then◌else◌,
}
use interact_kit_sdk.Text.{Text, contains, byte_len, trim_space, is_empty}
use interact_kit_sdk.Events.{
  llm_response_started, vad_interruption_confirmed, vad_interruption_suspected, tts_speak,
  llm_response_completed, llm_response_chunk, Event, Packet,
}

-- what `BufferText`, `Flush` and `Reset` answer while one event is handled: true is no error
pub record Answers : Type 0 where
  pub buffer_ok : Bool
  pub flush_ok : Bool
  pub reset_ok : Bool

-- A call of the service with its answer, an error for the fatal error channel, a text or a reset
-- for the simulation, or a packet sent on.
pub data Call : Type 0 where
  buffers : Text → Bool → Call
  flushes resets : Bool → Call
  fails : Call
  simulates : Text → Call
  resets_simulation : Call
  passes : Packet → Call

pub record TtsHandler : Type 0 where
  pub break_words : List Text
  pub min_text_length : ℕ
  pub text_buffer : Text
  pub has_buffered_since_last_flush : Bool
  pub enable_simulation : Bool

-- the loop over the break words
unfoldable pub has_break_word : List Text → Text → Bool
has_break_word [] text = false
has_break_word (bw ∷ bws) text = contains text bw || has_break_word bws text

unfoldable pub when_failed : Bool → List Call
when_failed true = []
when_failed false = fails ∷ []

unfoldable pub simulate : Bool → Call → List Call
simulate true c = c ∷ []
simulate false c = []

-- `BufferText`, then `Flush` where it succeeded, then the simulation
unfoldable pub speak_now : Answers → Text → TtsHandler → List Call
unfolding when_failed simulate
speak_now a text h =
    (buffers text a.buffer_ok
      ∷ (if a.buffer_ok then flushes a.flush_ok ∷ when_failed a.flush_ok else fails ∷ []))
    ++ simulate h.enable_simulation (simulates text)

-- normalisation of the text, as the module below defines it
module _ (normalize : Text → Text) where
  unfoldable pub on_immediate : Answers → Text → TtsHandler → TtsHandler × List Call
  unfolding speak_now
  on_immediate a chunk h =
      let text = normalize chunk in (h, if is_empty text then [] else speak_now a text h)

  unfoldable pub on_chunk : Answers → Text → TtsHandler → TtsHandler × List Call
  unfolding has_break_word when_failed simulate
  on_chunk a chunk h =
      let all = h.text_buffer ++ chunk in
      let text = normalize all in
      if has_break_word h.break_words all && leb h.min_text_length (byte_len all)
      then (
        record h {
          text_buffer = [];
          has_buffered_since_last_flush = a.buffer_ok || h.has_buffered_since_last_flush;
        },
        (buffers text a.buffer_ok ∷ when_failed a.buffer_ok)
            ++ simulate h.enable_simulation (simulates text),
      )
      else (record h { text_buffer = all }, [])

  -- the rest of the text, buffered at the end of a response
  unfoldable pub buffer_remaining : Answers → Text → TtsHandler → TtsHandler × List Call
  unfolding when_failed simulate
  buffer_remaining a [] h = (h, [])
  buffer_remaining a (c ∷ cs) h = (
    record h { has_buffered_since_last_flush = a.buffer_ok || h.has_buffered_since_last_flush },
    (buffers (c ∷ cs) a.buffer_ok ∷ when_failed a.buffer_ok)
        ++ simulate h.enable_simulation (simulates (c ∷ cs)),
  )

  unfoldable pub flush_buffered : Answers → TtsHandler → TtsHandler × List Call
  unfolding when_failed
  flush_buffered a h =
      if h.has_buffered_since_last_flush
      then (
        record h { has_buffered_since_last_flush = not a.flush_ok },
        flushes a.flush_ok ∷ when_failed a.flush_ok,
      )
      else (h, [])

  unfoldable pub on_completed : Answers → TtsHandler → TtsHandler × List Call
  unfolding buffer_remaining flush_buffered
  on_completed a h =
      let (h1, c1) =
        buffer_remaining a (trim_space h.text_buffer) (record h { text_buffer = [] }) in
      let (h2, c2) = flush_buffered a h1 in (h2, c1 ++ c2)

  unfoldable pub on_confirmed : Answers → TtsHandler → TtsHandler × List Call
  unfolding when_failed simulate
  on_confirmed a h = (
    record h { text_buffer = []; has_buffered_since_last_flush = false },
    simulate h.enable_simulation resets_simulation ++ (resets a.reset_ok ∷ when_failed a.reset_ok),
  )

  -- the type switch of `HandleEvent`
  unfoldable pub tts_dispatch : Answers → Event → TtsHandler → TtsHandler × List Call
  unfolding on_immediate on_chunk on_completed on_confirmed simulate speak_now
  tts_dispatch a (llm_response_chunk chunk true) h = on_immediate a chunk h
  tts_dispatch a (llm_response_chunk chunk false) h = on_chunk a chunk h
  tts_dispatch a (llm_response_completed full) h = on_completed a h
  tts_dispatch a vad_interruption_suspected h = (h, simulate h.enable_simulation resets_simulation)
  tts_dispatch a vad_interruption_confirmed h = on_confirmed a h
  tts_dispatch a llm_response_started h = (
    record h { text_buffer = []; has_buffered_since_last_flush = false },
    simulate h.enable_simulation resets_simulation,
  )
  tts_dispatch a (tts_speak text) h = (h, if is_empty text then [] else speak_now a text h)
  tts_dispatch a _ h = (h, [])

  unfoldable pub tts_handle_event : Answers → Packet → TtsHandler → TtsHandler × List Call
  unfolding tts_dispatch
  tts_handle_event a q h =
      let (h', calls) = tts_dispatch a q.event h in (h', calls ++ passes q ∷ [])

  unfoldable pub tts_run : List (Answers × Packet) → TtsHandler → TtsHandler × List Call
  tts_run [] h = (h, [])
  tts_run ((a, q) ∷ qs) h =
      let (h', calls) = tts_handle_event a q h in
      let (h'', later) = tts_run qs h' in (h'', calls ++ later)
