-- ===== src/Speech/Flushes.antt =====
-- When the service is flushed.
use interact_kit_sdk.Prelude.{
  ◌≡◌, refl, ◌∙◌, inl, inr, Bool, true, false, not, ◌||◌, Option, none, some, List, [], ◌∷◌, ◌++◌,
  arith, Option-cases, All,
}
use interact_kit_sdk.Text.{is_empty, trim_space, Text}
use interact_kit_sdk.Events.{
  vad_interruption_confirmed, llm_response_completed, Packet, tts_speak, llm_response_chunk, Event,
}
use interact_kit_sdk.Speech.{
  is_empty, passes, tts_handle_event, tts_run, tts_dispatch, trim_space, on_completed, on_chunk,
  on_confirmed, flush_buffered, buffer_remaining, resets, flushes, buffers, Answers, Call,
  TtsHandler,
}

-- Does the service hold text that it accepted and has not flushed? `none`: a flush without any.
unfoldable pub track_call : Call → Bool → Option Bool
track_call (buffers t true) pending = some true
track_call (flushes done) false = none
track_call (flushes done) true = some (not done)
track_call (resets true) pending = some false
track_call _ pending = some pending

unfoldable pub track_calls : List Call → Bool → Option Bool
track_calls [] pending = some pending
track_calls (c ∷ cs) pending = elim (track_call c pending) [
  | none ↦ none
  | some next ↦ track_calls cs next
]

-- the packets whose text is spoken at once
abbrev pub is_immediate : Event → Bool
is_immediate (llm_response_chunk t b) = b
is_immediate (tts_speak t) = true
is_immediate _ = false

track_calls-append :
    (xs ys : List Call) (b c : Bool)
    → track_calls xs b ≡ some c
    → track_calls (xs ++ ys) b ≡ track_calls ys c
unfolding track_calls
track_calls-append [] ys b c h = ground arith
track_calls-append (x ∷ xs) ys b c h = elim (Option-cases (track_call x b)) [
  | inl e ↦ ground arith
  | inr (d, e) ↦ ground (arith, track_calls-append xs ys d c)
]

-- the calls are in order, and what the handler remembers as buffered the service holds
abbrev sound : Bool → Option Bool → Bool
sound flag none = false
sound flag (some now) = not flag || now

module _ (normalize : Text → Text) where
  on_chunk-sound :
      (a : Answers) (t : Text) (h : TtsHandler) (pending : Bool)
      → (not h.has_buffered_since_last_flush || pending) ≡ true
      → let (h', calls) = on_chunk normalize a t h in
        sound h'.has_buffered_since_last_flush (track_calls calls pending) ≡ true
  unfolding on_chunk track_calls track_call
  on_chunk-sound a t h pending v = ground arith

  flush_buffered-sound :
      (a : Answers) (h : TtsHandler) (pending : Bool)
      → (not h.has_buffered_since_last_flush || pending) ≡ true
      → let (h', calls) = flush_buffered normalize a h in
        sound h'.has_buffered_since_last_flush (track_calls calls pending) ≡ true
  unfolding flush_buffered track_calls track_call
  flush_buffered-sound a h pending v = ground arith

  buffer_remaining-sound :
      (a : Answers) (t : Text) (h : TtsHandler) (pending : Bool)
      → (not h.has_buffered_since_last_flush || pending) ≡ true
      → let (h', calls) = buffer_remaining normalize a t h in
        sound h'.has_buffered_since_last_flush (track_calls calls pending) ≡ true
  unfolding buffer_remaining track_calls track_call
  buffer_remaining-sound a [] h pending v = ground arith
  buffer_remaining-sound a (c ∷ cs) h pending v = ground arith

  on_confirmed-sound :
      (a : Answers) (h : TtsHandler) (pending : Bool)
      → let (h', calls) = on_confirmed normalize a h in
        sound h'.has_buffered_since_last_flush (track_calls calls pending) ≡ true
  unfolding on_confirmed track_calls track_call
  on_confirmed-sound a h pending = ground arith

  -- the handler and the service after calls, in step
  pub record InStep (h : TtsHandler) (calls : List Call) (pending : Bool) : Type 0 where
    pub holds : Bool
    pub tracked : track_calls calls pending ≡ some holds
    pub remembered : (not h.has_buffered_since_last_flush || holds) ≡ true

  sound-InStep :
      (h : TtsHandler) (calls : List Call) (pending : Bool)
      → sound h.has_buffered_since_last_flush (track_calls calls pending) ≡ true
      → InStep h calls pending
  sound-InStep h calls pending s = elim (Option-cases (track_calls calls pending)) [
    | inl e ↦ absurd (ground (arith, s, e))
    | inr (now, e) ↦ record { holds = now; tracked = e; remembered = ground (arith, s, e) }
  ]

  then-InStep :
      (h' : TtsHandler) (xs ys : List Call) (pending : Bool) (h : TtsHandler)
      → (s : InStep h xs pending) → InStep h' ys s.holds
      → InStep h' (xs ++ ys) pending
  then-InStep h' xs ys pending h s r = record {
    holds = r.holds;
    tracked = track_calls-append xs ys pending s.holds s.tracked ∙ r.tracked;
    remembered = r.remembered;
  }

  on_completed-InStep :
      (a : Answers) (h : TtsHandler) (pending : Bool)
      → (not h.has_buffered_since_last_flush || pending) ≡ true
      → let (h', calls) = on_completed normalize a h in InStep h' calls pending
  unfolding on_completed
  on_completed-InStep a h pending v =
      let left = trim_space h.text_buffer in
      let (h1, c1) = buffer_remaining normalize a left (record h { text_buffer = [] }) in
      let (h2, c2) = flush_buffered normalize a h1 in
      let s =
        sound-InStep h1 c1 pending
          (buffer_remaining-sound a left (record h { text_buffer = [] }) pending v) in
      then-InStep h2 c1 c2 pending h1 s
        (sound-InStep h2 c2 s.holds (flush_buffered-sound a h1 s.holds s.remembered))

  dispatch-InStep :
      (a : Answers) (e : Event) (h : TtsHandler) (pending : Bool)
      → is_immediate e ≡ false
      → (not h.has_buffered_since_last_flush || pending) ≡ true
      → let (h', calls) = tts_dispatch normalize a e h in InStep h' calls pending
  unfolding tts_dispatch
  dispatch-InStep a (llm_response_chunk t true) h pending i v = absurd (cc i)
  dispatch-InStep a (llm_response_chunk t false) h pending i v =
      let (h', calls) = on_chunk normalize a t h in
      sound-InStep h' calls pending (on_chunk-sound a t h pending v)
  dispatch-InStep a (llm_response_completed full) h pending i v = on_completed-InStep a h pending v
  dispatch-InStep a vad_interruption_confirmed h pending i v =
      let (h', calls) = on_confirmed normalize a h in
      sound-InStep h' calls pending (on_confirmed-sound a h pending)
  dispatch-InStep a (tts_speak t) h pending i v = absurd (cc i)
  dispatch-InStep a e h pending i v =
      let (h', calls) = tts_dispatch normalize a e h in
      sound-InStep h' calls pending (unfold track_calls track_call in ground arith)

  step-InStep :
      (a : Answers) (q : Packet) (h : TtsHandler) (pending : Bool)
      → is_immediate q.event ≡ false
      → (not h.has_buffered_since_last_flush || pending) ≡ true
      → let (h', calls) = tts_handle_event normalize a q h in InStep h' calls pending
  unfolding tts_handle_event
  step-InStep a q h pending i v =
      let (h', calls) = tts_dispatch normalize a q.event h in
      let s = dispatch-InStep a q.event h pending i v in
      then-InStep h' calls (passes q ∷ []) pending h' s (record {
        holds = s.holds;
        tracked = unfold track_calls track_call in refl;
        remembered = s.remembered;
      })

  -- Over any packets but those whose text is to be spoken at once, whatever the service answers:
  -- each flush comes where the service holds text that it accepted after its last successful flush
  -- or reset, provided that it holds some at first if the handler remembers any; and at the end the
  -- service holds some if the handler remembers any.
  pub tts_run-InStep :
      (qs : List (Answers × Packet)) (h : TtsHandler) (pending : Bool)
      → All (λ q. is_immediate q.1.event ≡ false) qs
      → (not h.has_buffered_since_last_flush || pending) ≡ true
      → let (h', calls) = tts_run normalize qs h in InStep h' calls pending
  unfolding tts_run
  tts_run-InStep [] h pending i v = record {
    holds = pending;
    tracked = unfold track_calls in refl;
    remembered = v;
  }
  tts_run-InStep ((a, q) ∷ qs) h pending (i, is) v =
      let (h1, calls) = tts_handle_event normalize a q h in
      let (h2, later) = tts_run normalize qs h1 in
      let s = step-InStep a q h pending i v in
      then-InStep h2 calls later pending h1 s (tts_run-InStep qs h1 s.holds is s.remembered)

  -- A text that is spoken at once flushes the service without clearing what the handler remembers:
  -- where a chunk was buffered before it and nothing is left in the buffer, the end of the response
  -- flushes the service again, which then holds no text.
  pub flush_without_text :
      (a b : Answers) (now done : Packet) (chunk full : Text) (h : TtsHandler) (pending : Bool)
      → now.event ≡ llm_response_chunk chunk true
      → done.event ≡ llm_response_completed full
      → is_empty (normalize chunk) ≡ false
      → (a.buffer_ok ≡ true) × (a.flush_ok ≡ true)
      → h.has_buffered_since_last_flush ≡ true
      → trim_space h.text_buffer ≡ []
      → track_calls (tts_run normalize ((a, now) ∷ (b, done) ∷ []) h).1 pending ≡ none
  unfolding tts_run tts_handle_event tts_dispatch track_calls track_call
  flush_without_text a b now done chunk full h pending n d e ok remembered empty = ground arith
