-- ===== src/Services/ElevenLabs/Ordered.antt =====
-- The calls and the goroutines of services/elevenlabs/tts/tts.go, each of which keeps the greeting
-- first.
use interact_kit_sdk.Audio.Bytes.{Bytes}
use interact_kit_sdk.Text.{is_empty, Text}
use interact_kit_sdk.Services.ElevenLabs.Reader.{
  error_text, is_present, send_decoded, Decoded, send_error, finish_reader, send_audio, handle_text,
  audio_of,
}
use interact_kit_sdk.Services.ElevenLabs.Greeted.{
  Keeps-append, idle, close_connection-Keeps, greeted, Keeps, linked_greeted, greets_first,
}
use interact_kit_sdk.Services.Shared.{interrupted, unreachable, Dialled, is_session, holds}
use interact_kit_sdk.Services.ElevenLabs.{
  close_connection, reset_on, buffer_on, starts_heartbeat, starts_reader, closes, greeting,
  ready_on, on, writes, refused, ready, connected, is_empty, Dialled, is_session, Bytes, Ready,
  Text, cleanup_current, cleanup_session, say_on, Effect, Done, ElevenLabsTts, open_session,
  reconnected,
}
use interact_kit_sdk.Prelude.{
  ℕ, ◌≡◌, refl, subst, inl, inr, Bool, true, false, not, ◌&&◌, Option, none, some, List, [], ◌∷◌,
  arith, Bool-cases,
}

-- what a function leaves: its state, and what it did
abbrev pub Kept : List ℕ → ElevenLabsTts × List Effect → Type 0
Kept k (s, out) = Keeps k s.conn out

abbrev pub KeptDone : List ℕ → Done → Type 0
KeptDone k (s, out, fault) = Keeps k s.conn out

-- is a connection greeted by its greeting?
self_greeted : (c : ℕ) (k : List ℕ) → holds c (c ∷ k) ≡ true
unfolding holds
self_greeted c k = ground arith

ready-linked :
    (k : List ℕ) (b : Bool) (conn session : Option ℕ) (c : ℕ)
    → ready_on b conn session ≡ on c
    → linked_greeted conn k ≡ true
    → holds c k ≡ true
ready-linked k false conn session c e l = cc
ready-linked k true none session c e l = cc
ready-linked k true (some d) none c e l = cc
ready-linked k true (some d) (some session) c e l =
    let same : d ≡ c = cc in subst (λ x. holds x k ≡ true) same l

module _ (k : List ℕ) where
  pub reconnected-Keeps :
      (d : Dialled) (written : Bool) (p : ElevenLabsTts × List Effect)
      → Kept k p
      → KeptDone k (reconnected d written p)
  unfolding reconnected greets_first greeted
  reconnected-Keeps (connected c) true (s, out) h =
      Keeps-append k s.conn (some c) out (writes c greeting ∷ []) h (refl, self_greeted c _)
  reconnected-Keeps (connected c) false (s, out) h =
      Keeps-append k s.conn s.conn out (closes c ∷ []) h (refl, h.1)
  reconnected-Keeps unreachable written (s, out) h = h
  reconnected-Keeps interrupted written (s, out) h = h

  pub open_session-Keeps :
      (session : ℕ) (d : Dialled) (written : Bool) (p : ElevenLabsTts × List Effect)
      → Kept k p
      → KeptDone k (open_session session d written p)
  unfolding open_session greets_first greeted
  open_session-Keeps session (connected c) true (s, out) h =
      Keeps-append k s.conn (some c) out
        (writes c greeting ∷ starts_reader session ∷ starts_heartbeat ∷ []) h
        (refl, self_greeted c _)
  open_session-Keeps session (connected c) false (s, out) h =
      Keeps-append k s.conn none out (closes c ∷ []) h (refl, refl)
  open_session-Keeps session unreachable written (s, out) h = h
  open_session-Keeps session interrupted written (s, out) h = h

  module _ (s : ElevenLabsTts) (linked : linked_greeted s.conn k ≡ true) where
    cleanup_session-Keeps : (session : ℕ) → Kept k (cleanup_session session s)
    unfolding cleanup_session
    cleanup_session-Keeps session =
        close_connection-Keeps k (record s { ended = session ∷ s.ended }) linked

    pub cleanup_current-Keeps : (o : Option ℕ) → Kept k (cleanup_current o s)
    unfolding cleanup_current
    cleanup_current-Keeps none = idle k s linked
    cleanup_current-Keeps (some session) = cleanup_session-Keeps session

    pub finish_reader-Keeps : (session : ℕ) → Kept k (finish_reader session s)
    unfolding finish_reader
    finish_reader-Keeps session = elim (Bool-cases (is_session session s.current_session)) [
      | inl mine ↦ rw mine (cleanup_session-Keeps session)
      | inr other ↦ rw other (idle k s linked)
    ]

    pub send_error-Keeps :
        (session : ℕ) (room : Bool) (t : Text) → Keeps k s.conn (send_error session room t s)
    unfolding send_error greets_first greeted
    send_error-Keeps session room t = elim (Bool-cases (not (holds session s.ended) && room)) [
      | inl goes ↦ rw goes (refl, linked)
      | inr lost ↦ rw lost (refl, linked)
    ]

    pub send_audio-Keeps :
        (session : ℕ) (room : Bool) (b : Bytes) → Keeps k s.conn (send_audio session room b s)
    unfolding send_audio greets_first greeted
    send_audio-Keeps session room b = elim (Bool-cases (not (holds session s.ended) && room)) [
      | inl goes ↦ rw goes (refl, linked)
      | inr lost ↦ rw lost (refl, linked)
    ]

    send_decoded-Keeps :
        (decode64 : Text → Option Bytes) (session : ℕ) (room : Bool) (o : Option Bytes)
        → Keeps k s.conn (send_decoded decode64 session room o s)
    send_decoded-Keeps decode64 session room none = idle k s linked
    send_decoded-Keeps decode64 session room (some b) = send_audio-Keeps session room b

    audio_of-Keeps :
        (decode64 : Text → Option Bytes) (session : ℕ) (room : Bool) (o : Option Text)
        → Keeps k s.conn (audio_of decode64 session room o s)
    unfolding audio_of
    audio_of-Keeps decode64 session room none = idle k s linked
    audio_of-Keeps decode64 session room (some t) = elim (Bool-cases (is_empty t)) [
      | inl nothing ↦ rw nothing (idle k s linked)
      | inr there ↦ rw there (send_decoded-Keeps decode64 session room (decode64 t))
    ]

    pub handle_text-Keeps :
        (decode64 : Text → Option Bytes) (session : ℕ) (room : Bool) (m : Option Decoded)
        → Keeps k s.conn (handle_text decode64 session room m s)
    unfolding handle_text
    handle_text-Keeps decode64 session room none = idle k s linked
    handle_text-Keeps decode64 session room (some m) =
        elim (Bool-cases (is_present m.error_field)) [
          | inl error ↦
              rw error (send_error-Keeps session room (error_text m.error_field m.error_details))
          | inr fine ↦ elim (Bool-cases (is_present m.audio_field)) [
            | inl audio ↦ rw (fine, audio) (audio_of-Keeps decode64 session room m.audio)
            | inr other ↦ rw (fine, other) (idle k s linked)
          ]
        ]

    pub say_on-Keeps :
        (written : Bool) (t : Text) (r : Ready) → ready s ≡ r → KeptDone k (say_on written t r s)
    unfolding say_on greets_first greeted ready
    say_on-Keeps written t (refused fault) e = idle k s linked
    say_on-Keeps false t (on c) e = idle k s linked
    say_on-Keeps true t (on c) e =
        let own : holds c k ≡ true =
          ready-linked k s.is_initialized s.conn s.current_session c e linked in
        (rw own refl, linked)

    pub buffer_on-Keeps :
        (written : Bool) (t : Text) (r : Ready) → ready s ≡ r → KeptDone k (buffer_on written t r s)
    unfolding buffer_on
    buffer_on-Keeps written t (refused fault) e = idle k s linked
    buffer_on-Keeps written [] (on c) e = idle k s linked
    buffer_on-Keeps written (x ∷ xs) (on c) e = say_on-Keeps written (x ∷ xs) (on c) e

    pub reset_on-Keeps :
        (d : Dialled) (written : Bool) (r : Ready) → KeptDone k (reset_on d written r s)
    unfolding reset_on
    reset_on-Keeps d written (refused fault) = idle k s linked
    reset_on-Keeps d written (on c) =
        reconnected-Keeps d written (close_connection s) (close_connection-Keeps k s linked)
