-- ===== src/Speech/Simulation.antt =====
-- `simulationLoop` and `sendNextWord` of handlers/tts/tts_handler.go. The loop is the only reader
-- of its channels and the only writer of `isSpeaking`. `queued` is what `textToSpeak` holds, of 100
-- texts at most, and `reset_waits` says that `resetSim` holds a signal. The interval between two
-- words is the time between two ticks.
use interact_kit_sdk.Prelude.{
  Bool, true, false, not, ◌&&◌, List, [], ◌∷◌, ◌++◌, ltb, if◌then◌else◌, length,
}
use interact_kit_sdk.Text.{is_empty, Text, fields}
use interact_kit_sdk.Events.{
  tts_speaking_started, tts_spoken_text_chunk, tts_speaking_ended, Event, Packet, Destination,
  next_service, top_service, new_event_packet,
}

-- `has_timer` is `timer != nil`
pub record Simulation : Type 0 where
  pub queued : List Text
  pub reset_waits : Bool
  pub words : List Text
  pub has_timer : Bool
  pub is_speaking : Bool

abbrev pub new_simulation : Simulation
new_simulation = record {
  queued = [];
  reset_waits = false;
  words = [];
  has_timer = false;
  is_speaking = false;
}

-- Sends of the handler, which drop what a full channel cannot take, and the cases of the loop's
-- `select`; a case that is not ready does nothing.
pub data SimInput : Type 0 where
  offers : Text → SimInput
  offers_reset takes_text takes_reset ticks stops : SimInput

abbrev pub sends_to : Destination → Event → Packet
sends_to d e = new_event_packet e d "TTSHandler"

-- the check that ends the speaking state
unfoldable pub end_speaking : Simulation → Simulation × List Packet
end_speaking s =
    if s.is_speaking
    then (record s { is_speaking = false }, sends_to top_service tts_speaking_ended ∷ [])
    else (s, [])

unfoldable pub send_next_word : List Text → Simulation → Simulation × List Packet
unfolding end_speaking
send_next_word [] s = (s, [])
send_next_word (w ∷ []) s =
    let (s', out) = end_speaking (record s { words = []; has_timer = false }) in
    (s', sends_to next_service (tts_spoken_text_chunk w) ∷ out)
send_next_word (w ∷ v ∷ ws) s = (
  record s { words = v ∷ ws; has_timer = true },
  sends_to next_service (tts_spoken_text_chunk w) ∷ [],
)

-- the words of a text that was taken from the channel
unfoldable pub add_words : List Text → Simulation → Simulation × List Packet
unfolding send_next_word
add_words [] s = (s, [])
add_words (w ∷ ws) s =
    let starts = not s.is_speaking && is_empty s.words in
    let s1 = if starts then record s { is_speaking = true } else s in
    let s2 = record s1 { words = s1.words ++ w ∷ ws } in
    let out = if starts then sends_to top_service tts_speaking_started ∷ [] else [] in
    let (s3, more) = if s2.has_timer then (s2, []) else send_next_word s2.words s2 in
    (s3, out ++ more)

unfoldable pub take_text : List Text → Simulation → Simulation × List Packet
unfolding add_words
take_text [] s = (s, [])
take_text (t ∷ ts) s = add_words (fields t) (record s { queued = ts })

unfoldable pub reset_simulation : Simulation → Simulation × List Packet
unfolding end_speaking
reset_simulation s =
    end_speaking (record s { words = []; queued = []; has_timer = false; reset_waits = false })

unfoldable pub tick : List Text → Simulation → Simulation × List Packet
unfolding send_next_word end_speaking
tick [] s = end_speaking (record s { has_timer = false })
tick (w ∷ ws) s = send_next_word (w ∷ ws) s

unfoldable pub sim_step : SimInput → Simulation → Simulation × List Packet
unfolding take_text reset_simulation tick end_speaking
sim_step (offers t) s =
    (if ltb (length s.queued) 100 then record s { queued = s.queued ++ t ∷ [] } else s, [])
sim_step offers_reset s = (record s { reset_waits = true }, [])
sim_step takes_text s = take_text s.queued s
sim_step takes_reset s = if s.reset_waits then reset_simulation s else (s, [])
sim_step ticks s = if s.has_timer then tick s.words s else (s, [])
sim_step stops s = end_speaking (record s { has_timer = false })

unfoldable pub sim_run : List SimInput → Simulation → Simulation × List Packet
sim_run [] s = (s, [])
sim_run (i ∷ is) s =
    let (s', out) = sim_step i s in let (s'', later) = sim_run is s' in (s'', out ++ later)
