-- ===== src/Services/ElevenLabs/Resets.antt =====
-- `Reset` of services/elevenlabs/tts/tts.go, and the reader of the connection that it closes.
use interact_kit_sdk.Services.Shared.{connected}
use interact_kit_sdk.Audio.Bytes.{Bytes}
use interact_kit_sdk.Text.{Text}
use interact_kit_sdk.Services.ElevenLabs.Reader.{read_failed, reader_read}
use interact_kit_sdk.Services.ElevenLabs.{
  says, greeting, writes, closes, connected, ElevenLabsTts, Bytes, Text, close_conn, buffer_text,
  reset,
}
use interact_kit_sdk.Prelude.{ℕ, ◌≡◌, refl, Bool, true, false, Option, none, some, [], ◌∷◌}

-- A live service with a session is reset, both dials and greetings succeed, and a text is buffered
-- before the reader of the old connection, whose read now fails, reconnects in its turn: the text
-- goes to the connection that the reset made, the reader closes that connection, and nothing but
-- the greeting is sent on the one that the service is left with.
pub reset-then-reader :
    (decode64 : Text → Option Bytes) (session old c c' x : ℕ) (xs : Text) (room : Bool) (e : Text)
    (s : ElevenLabsTts)
    → s.is_initialized ≡ true
    → s.cancelled ≡ false
    → s.conn ≡ some old
    → s.current_session ≡ some session
    → let (fresh, out, fault) = reset (connected c) true s in
      let (said, out', fault') = buffer_text true (x ∷ xs) fresh in
      let (last, out'', reading) =
        reader_read decode64 session room e (read_failed (connected c') true) said in
      (out ≡ closes old ∷ writes c greeting ∷ [])
      × (out' ≡ writes c (says (x ∷ xs)) ∷ [])
      × (fault' ≡ none)
      × (out'' ≡ closes c ∷ writes c' greeting ∷ [])
      × (last.conn ≡ some c')
unfolding reset buffer_text reader_read close_conn
reset-then-reader decode64 session old c c' x xs room e s init live linked current =
    rw (init, live, linked, current) (refl, refl, refl, refl, refl)
