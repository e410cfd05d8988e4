-- ===== src/Services/ElevenLabs/Runs.antt =====
-- The text-to-speech service of ElevenLabs, services/elevenlabs/tts/tts.go, along a sequence of
-- calls and of steps of its goroutines.
use interact_kit_sdk.Services.Shared.{Dialled}
use interact_kit_sdk.Services.ElevenLabs.Greeted.{
  cleans_up, initializes, beats, reader_ends, reader_tops, resets, flushes, greeted, buffers,
  Keeps-append, close_connection-Keeps, greets_first, idle, starts, Action, linked_greeted,
}
use interact_kit_sdk.Services.ElevenLabs.Ordered.{
  handle_text-Keeps, reset_on-Keeps, say_on-Keeps, cleanup_current-Keeps, send_audio-Keeps,
  buffer_on-Keeps, reconnected-Keeps, open_session-Keeps, finish_reader-Keeps, send_error-Keeps,
  Kept, KeptDone,
}
use interact_kit_sdk.Audio.Bytes.{Bytes}
use interact_kit_sdk.Services.ElevenLabs.{
  ready, close_connection, cleanup_current, is_empty, reset, Dialled, flush, initialize,
  VoiceConfig, cleanup, reconnect, start_session, buffer_text, Bytes, Effect, new_tts,
  ElevenLabsTts, Done,
}
use interact_kit_sdk.Text.{is_empty, Text}
use interact_kit_sdk.Services.ElevenLabs.Reader.{
  message_of, send_error, finish_reader, binary, read_failed, Incoming, Reading, heartbeat_tick,
  reader_top, reader_read, reader_top_on, after_reconnect,
}
use interact_kit_sdk.Prelude.{
  ℕ, ◌≡◌, refl, Bool, true, false, not, Option, none, some, List, [], ◌∷◌, ◌++◌, if◌then◌else◌,
}

abbrev of_done : Done → ElevenLabsTts × List Effect
of_done (s, out, fault) = (s, out)

abbrev of_reader : ElevenLabsTts × List Effect × Reading → ElevenLabsTts × List Effect
of_reader (s, out, reading) = (s, out)

-- what an action makes of the state
unfoldable pub act : (Text → Option Bytes) → Action → ElevenLabsTts → ElevenLabsTts × List Effect
act decode64 initializes s = of_done (initialize s)
act decode64 cleans_up s = of_done (cleanup s)
act decode64 (starts has_out has_error has_done session d written) s =
    of_done (start_session has_out has_error has_done session d written s)
act decode64 (buffers written t) s = of_done (buffer_text written t s)
act decode64 (flushes written) s = of_done (flush written s)
act decode64 (resets d written) s = of_done (reset d written s)
act decode64 (reader_tops session room d written e) s =
    of_reader (reader_top session room d written e s)
act decode64 (reader_ends session room e m) s = of_reader (reader_read decode64 session room e m s)
act decode64 (beats conn fine) s = heartbeat_tick conn fine s

unfoldable pub acts :
    (Text → Option Bytes) → List Action → ElevenLabsTts → ElevenLabsTts × List Effect
unfolding act
acts decode64 [] s = (s, [])
acts decode64 (a ∷ actions) s =
    let (next, out) = act decode64 a s in
    let (last, more) = acts decode64 actions next in (last, out ++ more)

-- what holds in both branches
if_all : {A : Type 0} (P : A → Type 0) (b : Bool) (x y : A) → P x → P y → P (if b then x else y)
if_all P true x y h k = h
if_all P false x y h k = k

module _ (k : List ℕ) where
  after_reconnect-Keeps :
      (session : ℕ) (room : Bool) (t : Text) (d : Done)
      → KeptDone k d
      → Kept k (of_reader (after_reconnect session room t d))
  unfolding after_reconnect
  after_reconnect-Keeps session room t (s, out, none) h = h
  after_reconnect-Keeps session room t (s, out, some fault) h =
      let reported = send_error-Keeps (greeted k out) s h.1 session room t in
      let (ended, last) = finish_reader session s in
      Keeps-append k s.conn ended.conn out (send_error session room t s ++ last) h (
        Keeps-append (greeted k out) s.conn ended.conn (send_error session room t s) last reported
          (finish_reader-Keeps _ s reported.1 session))

  module _ (s : ElevenLabsTts) (linked : linked_greeted s.conn k ≡ true) where
    initialize-Keeps : KeptDone k (initialize s)
    unfolding initialize
    initialize-Keeps =
        let still = idle k s linked in
        if_all (KeptDone k) s.is_initialized _ _ still
          (if_all (KeptDone k) (is_empty s.config.api_key) _ _ still still)

    cleanup-Keeps : KeptDone k (cleanup s)
    unfolding cleanup
    cleanup-Keeps =
        if_all (KeptDone k) s.is_initialized _ _
          (close_connection-Keeps k (record s { cancelled = true }) linked) (idle k s linked)

    start_session-Keeps :
        (o e d : Bool) (session : ℕ) (dialled : Dialled) (written : Bool)
        → KeptDone k (start_session o e d session dialled written s)
    unfolding start_session
    start_session-Keeps o e d session dialled written =
        let still = idle k s linked in
        if_all (KeptDone k) (not s.is_initialized) _ _ still (
          if_all (KeptDone k) (not o) _ _ still (
            if_all (KeptDone k) (not e) _ _ still (
              if_all (KeptDone k) (not d) _ _ still (
                open_session-Keeps k session dialled written (cleanup_current s.current_session s)
                  (cleanup_current-Keeps k s linked s.current_session)))))

    reconnect-Keeps : (d : Dialled) (written : Bool) → KeptDone k (reconnect d written s)
    unfolding reconnect
    reconnect-Keeps d written =
        reconnected-Keeps k d written (close_connection s) (close_connection-Keeps k s linked)

    reader_top_on-Keeps :
        (session : ℕ) (room : Bool) (d : Dialled) (written : Bool) (e : Text) (conn : Option ℕ)
        → Kept k (of_reader (reader_top_on session room d written e conn s))
    unfolding reader_top_on
    reader_top_on-Keeps session room d written e (some c) = idle k s linked
    reader_top_on-Keeps session room d written e none =
        after_reconnect-Keeps session room _ (reconnect d written s) (reconnect-Keeps d written)

    heartbeat_tick-Keeps : (conn : Option ℕ) (fine : Bool) → Kept k (heartbeat_tick conn fine s)
    unfolding heartbeat_tick
    heartbeat_tick-Keeps none fine = idle k s linked
    heartbeat_tick-Keeps (some c) true = idle k s linked
    heartbeat_tick-Keeps (some c) false = close_connection-Keeps k s linked

    reader_read-Keeps :
        (decode64 : Text → Option Bytes) (session : ℕ) (room : Bool) (e : Text) (m : Incoming)
        → Kept k (of_reader (reader_read decode64 session room e m s))
    unfolding reader_read
    reader_read-Keeps decode64 session room e (read_failed d written) =
        if_all (λ r. Kept k (of_reader r)) s.cancelled _ _ (finish_reader-Keeps k s linked session)
          (after_reconnect-Keeps session room _ (reconnect d written s) (reconnect-Keeps d written))
    reader_read-Keeps decode64 session room e (binary b) =
        send_audio-Keeps k s linked session room b
    reader_read-Keeps decode64 session room e (message_of m) =
        handle_text-Keeps k s linked decode64 session room m

    reader_top-Keeps :
        (session : ℕ) (room : Bool) (d : Dialled) (written : Bool) (e : Text)
        → Kept k (of_reader (reader_top session room d written e s))
    unfolding reader_top
    reader_top-Keeps session room d written e =
        if_all (λ r. Kept k (of_reader r)) s.cancelled _ _ (finish_reader-Keeps k s linked session)
          (reader_top_on-Keeps session room d written e s.conn)

    act-Keeps : (decode64 : Text → Option Bytes) (a : Action) → Kept k (act decode64 a s)
    unfolding act buffer_text flush reset
    act-Keeps decode64 initializes = initialize-Keeps
    act-Keeps decode64 cleans_up = cleanup-Keeps
    act-Keeps decode64 (starts o e d session dialled written) =
        start_session-Keeps o e d session dialled written
    act-Keeps decode64 (buffers written t) = buffer_on-Keeps k s linked written t (ready s) refl
    act-Keeps decode64 (flushes written) = say_on-Keeps k s linked written [] (ready s) refl
    act-Keeps decode64 (resets d written) = reset_on-Keeps k s linked d written (ready s)
    act-Keeps decode64 (reader_tops session room d written e) =
        reader_top-Keeps session room d written e
    act-Keeps decode64 (reader_ends session room e m) = reader_read-Keeps decode64 session room e m
    act-Keeps decode64 (beats conn fine) = heartbeat_tick-Keeps conn fine

acts-Keeps :
    (decode64 : Text → Option Bytes) (actions : List Action) (k : List ℕ) (s : ElevenLabsTts)
    → linked_greeted s.conn k ≡ true
    → Kept k (acts decode64 actions s)
unfolding acts
acts-Keeps decode64 [] k s linked = idle k s linked
acts-Keeps decode64 (a ∷ actions) k s linked =
    let kept = act-Keeps k s linked decode64 a in
    let (next, out) = act decode64 a s in
    let (last, more) = acts decode64 actions next in
    Keeps-append k next.conn last.conn out more kept
      (acts-Keeps decode64 actions (greeted k out) next kept.1)

-- Whatever the calls, the steps of the reader and the heartbeat, and the outcomes of the dials, the
-- writes and the reads, in any order, on a new service: no text, and no end of a stream, goes to a
-- connection before its greeting.
pub acts-greets_first :
    (decode64 : Text → Option Bytes) (config : VoiceConfig) (actions : List Action)
    → greets_first [] (acts decode64 actions (new_tts config)).1 ≡ true
unfolding new_tts
acts-greets_first decode64 config actions = (acts-Keeps decode64 actions [] (new_tts config) refl).0
