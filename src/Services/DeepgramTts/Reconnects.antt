-- ===== src/Services/DeepgramTts/Reconnects.antt =====
-- The connection of services/deepgram/tts/tts.go when a read fails, and when the service is cleaned
-- up meanwhile.
use interact_kit_sdk.Services.Shared.{unreachable, or_else, connected, holds, establish, Dialled}
use interact_kit_sdk.Audio.Bytes.{Bytes}
use interact_kit_sdk.Services.DeepgramTts.{no_session, Bytes, ready, buffer_on, buffer_text}
use interact_kit_sdk.Text.{codes, Text}
use interact_kit_sdk.Services.DeepgramTts.Reader.{
  at_top, returned, read_failed, reader_top, finish_reader, send_error, after_reconnect,
  reader_read,
}
use interact_kit_sdk.Services.DeepgramTts.Socket.{
  reports, ready, closes, cleanup_session, DeepgramTts, cleanup, reconnected, reconnect, close_conn,
  close_connection,
}
use interact_kit_sdk.Prelude.{
  ℕ, ◌≡◌, refl, inl, inr, Bool, true, false, Option, some, [], ◌∷◌, ◌++◌, arith, Option-cases,
}

-- `establishConnection` while the context lives: the first of three dials that succeeds.
pub establish-first :
    (dials : ℕ → Option ℕ) (stops : ℕ → Bool)
    → stops 1 ≡ false
    → stops 2 ≡ false
    → establish dials stops ≡ or_else (dials 0) (or_else (dials 1) (or_else (dials 2) unreachable))
unfolding establish
establish-first dials stops h k = rw (h, k) refl

-- A read that fails while the service lives, after which a dial succeeds: the reader reads on, the
-- session is kept, the service is connected to the new connection only, its old one is closed, and
-- nothing counts as sent on the new one.
pub read_failed-recovers :
    (session c old : ℕ) (room : Bool) (e : Text) (s : DeepgramTts)
    → s.cancelled ≡ false
    → s.conn ≡ some old
    → reader_read session room e (read_failed (connected c)) s
      ≡ (record s { conn = some c; char_count = 0 }, closes old ∷ [], at_top)
unfolding reader_read after_reconnect reconnect reconnected close_connection close_conn
read_failed-recovers session c old room e s h k = rw (h, k) refl

-- A read of the current session that fails while the service lives, after which three dials fail:
-- the error goes to the session, where its channel has room, and the reader returns. The session is
-- over, so a text after that is refused.
pub read_failed-gives_up :
    (session old : ℕ) (e : Text) (written : ℕ → Bool) (t : Bytes) (s : DeepgramTts)
    → s.cancelled ≡ false
    → s.is_initialized ≡ true
    → s.conn ≡ some old
    → s.current_session ≡ some session
    → holds session s.ended ≡ false
    → let (next, out, reading) = reader_read session true e (read_failed unreachable) s in
      (out ≡ closes old ∷ reports session (codes "reconnect failed after read error: " ++ e) ∷ [])
      × (reading ≡ returned)
      × (buffer_text written t next ≡ (next, [], some no_session))
unfolding reader_read after_reconnect reconnect reconnected close_connection close_conn send_error
    finish_reader cleanup_session buffer_text buffer_on ready
read_failed-gives_up session old e written t s live init linked current open_ =
    (ground arith, ground arith, ground arith)

-- A service that is cleaned up after the reader has closed the connection, and before its dial
-- succeeds, keeps the connection that is dialled: the reader returns, and closes nothing.
pub reconnected-leaks :
    (session c : ℕ) (room : Bool) (dialled : Dialled) (e : Text) (s : DeepgramTts)
    → s.is_initialized ≡ true
    → let (closed, out) = close_connection s in
      let (after, nothing, fault) = reconnected (connected c) (cleanup closed) in
      (after.conn ≡ some c)
      × (after.is_initialized ≡ false)
      × (reader_top session room dialled e after ≡ (after, [], returned))
unfolding close_connection close_conn reconnected cleanup reader_top finish_reader
reconnected-leaks session c room dialled problem s init = elim (Option-cases s.conn) [
  | inl e ↦ rw (e, init) (refl, refl, refl)
  | inr (c', e) ↦ rw (e, init) (refl, refl, refl)
]
