-- ===== src/Services/DeepgramStt/Races.antt =====
-- Calls of services/deepgram/stt/stt.go against its session.
use interact_kit_sdk.Text.{Text}
use interact_kit_sdk.Audio.Bytes.{Bytes}
use interact_kit_sdk.Audio.Convert.{pcm, convert_audio_chunk, AudioChunk, Codecs}
use interact_kit_sdk.Services.DeepgramStt.{
  spawns_error_handler, failed, panics, samples_of, Text, not_connected, Bytes, DeepgramStt,
  close_conn, write_audio, Codecs, handle_connection_error, send_converted, close_connection,
  send_transcription_audio, may_send,
}
use interact_kit_sdk.Services.DeepgramStt.Session.{
  context_ends, not_dialled, listening, dialled, waited, reads_binary, reads, read_failed,
  session_step, Next, session_run,
}
use interact_kit_sdk.Prelude.{
  ℕ, suc, ◌+◌, ◌≡◌, refl, ap, ◌∙◌, ◌≢◌, inl, inr, Bool, true, false, ◌&&◌, Option, none, some, List,
  [], ◌∷◌, arith, is_some, Option-cases, length, All,
}

-- a session that reads on, and what a run of messages is
abbrev pub IsMessage : Next → Type 0
IsMessage (reads room interim_room m) = Unit
IsMessage reads_binary = Unit
IsMessage _ = ⊥

write_audio-linked :
    (written : Bool) (audio : Bytes) (c : ℕ) (s : DeepgramStt)
    → (write_audio written audio (some c) s).2 ≢ panics
unfolding write_audio
write_audio-linked true audio c s h = cc
write_audio-linked false audio c s h = cc

not_ready : (b : Bool) (o : Option ℕ) → o ≡ none → (b && is_some o) ≡ true → ⊥
not_ready b o e h = ground arith

-- Where a service is ready to send: a call of `SendTranscriptionAudio` that nothing interrupts does
-- not panic; where the read of the session fails between its test and its write, the write is to a
-- connection that is nil, and panics.
pub send-close-panics :
    (k : Codecs) (written : Bool) (chunk : AudioChunk) (audio : Bytes) (c : ℕ) (e : Text)
    (room : Bool) (s : DeepgramStt)
    → may_send s ≡ true
    → samples_of (convert_audio_chunk k chunk pcm 1 16000) ≡ some audio
    → ((send_transcription_audio k written chunk s).2 ≢ panics)
      × ((send_converted written
            (some audio)
            (session_step (listening c) (read_failed e room) s).0).2
          ≡ panics)
unfolding may_send send_transcription_audio send_converted write_audio session_step close_connection
    close_conn
send-close-panics k written chunk audio c e room s able converted = elim (Option-cases s.conn) [
  | inl nowhere ↦ absurd (not_ready s.is_connected s.conn nowhere able)
  | inr (c', there) ↦ rw (able, converted, there) (write_audio-linked written audio c' _, refl)
]

-- After `handleConnectionError`, while the context lives and the read of the connection brings
-- messages: the connection stays, and each audio is refused.
pub write_failed-refuses :
    (k : Codecs) (written : Bool) (chunk : AudioChunk) (c : ℕ) (ns : List Next) (s : DeepgramStt)
    → s.is_done ≡ false
    → All IsMessage ns
    → let (last, out, phase) = session_run ns (listening c) (handle_connection_error s) in
      (phase ≡ listening c)
      × (last.conn ≡ s.conn)
      × (send_transcription_audio k written chunk last ≡ (last, [], not_connected))
unfolding session_run session_step handle_connection_error send_transcription_audio may_send
write_failed-refuses k written chunk c [] s live h = (refl, refl, refl)
write_failed-refuses k written chunk c (reads room interim_room m ∷ ns) s live (_, h) =
    rw live (write_failed-refuses k written chunk c ns (record s { is_done = false }) refl h)
write_failed-refuses k written chunk c (reads_binary ∷ ns) s live (_, h) =
    rw live (write_failed-refuses k written chunk c ns (record s { is_done = false }) refl h)
write_failed-refuses k written chunk c (dialled d ∷ ns) s live (x, h) = absurd x
write_failed-refuses k written chunk c (not_dialled e room ∷ ns) s live (x, h) = absurd x
write_failed-refuses k written chunk c (read_failed e room ∷ ns) s live (x, h) = absurd x
write_failed-refuses k written chunk c (waited ∷ ns) s live (x, h) = absurd x
write_failed-refuses k written chunk c (context_ends ∷ ns) s live (x, h) = absurd x

-- a write that fails leaves the state to the goroutine that it starts
send-fails :
    (k : Codecs) (chunk : AudioChunk) (audio : Bytes) (c : ℕ) (s : DeepgramStt)
    → s.is_connected ≡ true
    → s.conn ≡ some c
    → samples_of (convert_audio_chunk k chunk pcm 1 16000) ≡ some audio
    → send_transcription_audio k false chunk s ≡ (s, spawns_error_handler ∷ [], failed)
unfolding may_send send_transcription_audio send_converted write_audio
send-fails k chunk audio c s up there converted =
    rw (ap (λ b. b && is_some s.conn) up, ap (λ o. is_some o) there, converted)
      (ap (λ o. write_audio false audio o s) there)

-- Where a service with a connection sends audio that is converted, the write fails, the goroutine
-- that this starts has run, the context lives and the read of the connection brings messages: the
-- connection stays the one whose write failed, and each audio after it is refused.
pub failed_write-refuses :
    (k : Codecs) (written : Bool) (chunk later : AudioChunk) (audio : Bytes) (c : ℕ)
    (ns : List Next) (s : DeepgramStt)
    → s.is_connected ≡ true
    → s.conn ≡ some c
    → samples_of (convert_audio_chunk k chunk pcm 1 16000) ≡ some audio
    → s.is_done ≡ false
    → All IsMessage ns
    → let (failing, effects, result) = send_transcription_audio k false chunk s in
      let (last, out, phase) = session_run ns (listening c) (handle_connection_error failing) in
      (result ≡ failed)
      × (effects ≡ spawns_error_handler ∷ [])
      × (phase ≡ listening c)
      × (last.conn ≡ some c)
      × (send_transcription_audio k written later last ≡ (last, [], not_connected))
failed_write-refuses k written chunk later audio c ns s up there converted live h =
    let (phase, kept, refused) = write_failed-refuses k written later c ns s live h in
    rw (send-fails k chunk audio c s up there converted) (refl, refl, phase, kept ∙ there, refused)

-- the failures of a connection, and the reconnections to some others
unfoldable pub reconnections : List ℕ → List Next
reconnections [] = []
reconnections (c ∷ cs) = read_failed [] true ∷ waited ∷ dialled c ∷ reconnections cs

unfoldable pub last_of : ℕ → List ℕ → ℕ
last_of c [] = c
last_of c (d ∷ ds) = last_of d ds

-- While the context lives, a session whose reads fail and whose dials succeed reads the connection
-- dialled last, and each reconnection has added a goroutine that sends keepalives.
pub reconnections-keep_alives :
    (c : ℕ) (cs : List ℕ) (s : DeepgramStt)
    → s.is_done ≡ false
    → let (last, out, phase) = session_run (reconnections cs) (listening c) s in
      (phase ≡ listening (last_of c cs)) × (last.keep_alives ≡ s.keep_alives + length cs)
unfolding session_run session_step reconnections last_of close_connection close_conn
reconnections-keep_alives c [] s live = (refl, omega arith)
reconnections-keep_alives c (d ∷ cs) s live =
    let next : DeepgramStt = record s {
      conn = some d;
      is_connected = true;
      is_done = false;
      keep_alives = suc s.keep_alives;
    } in
    let (phase, count) = reconnections-keep_alives d cs next refl in
    let total : (session_run (reconnections cs) (listening d) next).0.keep_alives
        ≡ s.keep_alives + length (d ∷ cs) =
      omega (arith, count) in
    elim (Option-cases s.conn) [
      | inl nowhere ↦ rw (nowhere, live) (phase, total)
      | inr (c', there) ↦ rw (there, live) (phase, total)
    ]
