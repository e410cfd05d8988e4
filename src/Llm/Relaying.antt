-- ===== src/Llm/Relaying.antt =====
-- What each step tells of a response, before its start and until its end.
use interact_kit_sdk.Llm.Texts.{completed_of, chunk_of, completed_texts, chunk_texts}
use interact_kit_sdk.Events.{
  Params, LlmContext, Packet, vad_interruption_confirmed, vad_interruption_suspected,
  llm_prepare_interim_filler, llm_variable_confirm_request, llm_response_chunk,
  llm_generate_response, llm_response_completed, Event,
}
use interact_kit_sdk.Prelude.{
  ℕ, String, ◌≡◌, refl, sym, ap, subst, Bool, true, false, Option, none, some, List, [], ◌∷◌, ◌++◌,
  append-nil, arith, is_some,
}
use interact_kit_sdk.Text.{Text}
use interact_kit_sdk.Llm.Filler.{
  store_result, poll_filler, request_failed, request_filler, reset_utterance, hear_utterance,
  on_interim, FillerState,
}
use interact_kit_sdk.Llm.Handler.{
  llm_handle_event, sends_next, handle_interim_transcript, llm_dispatch, sends, LlmHandler,
  LlmEffect,
}
use interact_kit_sdk.Llm.Answers.{Json}
use interact_kit_sdk.Llm.Loop.{
  takes_end, takes_start, start_completion, on_bridge_answer, on_poll, on_message, on_tool_call,
  llm_step_alive, on_filler_answer, answers_bridge, takes_tool_call, answers_filler, takes_message,
  polls, handles, LlmInput,
}
use interact_kit_sdk.Llm.Invariant.{FillerInv}

-- Packets that bear on no response: no request for one, no part of one, no interruption, no
-- variable to confirm; and an interim transcript comes with a context.
abbrev pub bears_on_none : Event → Bool
bears_on_none (llm_generate_response c) = false
bears_on_none (llm_response_chunk t b) = false
bears_on_none (llm_response_completed t) = false
bears_on_none (llm_variable_confirm_request t) = false
bears_on_none vad_interruption_suspected = false
bears_on_none vad_interruption_confirmed = false
bears_on_none (llm_prepare_interim_filler t c) = is_some c
bears_on_none _ = true

-- what may happen between the request for a response and its start
abbrev pub prepares : LlmInput → Bool
prepares (handles q) = bears_on_none q.event
prepares (polls i late) = true
prepares (answers_filler t u a) = true
prepares (answers_bridge t a) = true
prepares _ = false

-- and between its start and its end
abbrev pub streams : LlmInput → Bool
streams (handles q) = bears_on_none q.event
streams (takes_message m) = true
streams (takes_tool_call t ps) = true
streams (answers_filler t u a) = true
streams (answers_bridge t a) = true
streams _ = false

-- the process lives, and what the service sends is passed on
pub record Passes (h : LlmHandler) : Type 0 where
  pub alive : h.panicked ≡ false
  pub passing : h.discarding ≡ false

-- A step that has `text` to tell before, and `text'` after: it has sent the difference, and no end
-- of a response.
pub record Tells (text text' : Text) (h' : LlmHandler) (out : List LlmEffect) : Type 0 where
  pub passes : Passes h'
  pub told : text ++ chunk_texts out ≡ text'
  pub no_end : completed_texts out ≡ []

on_interim-consumed :
    (text : Text) (f : FillerState)
    → FillerInv f
    → (on_interim text f).0.consumed_filler ≡ f.consumed_filler
unfolding on_interim hear_utterance reset_utterance request_filler
on_interim-consumed text f v = ground (arith, v.idle_off, v.text_used)

-- a step that sends no text of a response
silent-Tells :
    (t : Text) (h : LlmHandler) (out : List LlmEffect)
    → Passes h
    → (chunk_texts out ≡ []) × (completed_texts out ≡ [])
    → Tells t t h out
silent-Tells t h out w (c, d) = ground (arith, append-nil t, w, c, d)

-- a packet that bears on no response leaves what is told, in both variables
record Leaves (h h' : LlmHandler) (out : List LlmEffect) : Type 0 where
  pub passes : Passes h'
  pub same_filler : h'.filler.consumed_filler ≡ h.filler.consumed_filler
  pub same_text : h'.full_text ≡ h.full_text
  pub no_chunk : chunk_texts out ≡ []
  pub no_end : completed_texts out ≡ []

interim-Leaves :
    (text : Text) (c : LlmContext) (q : Packet) (h : LlmHandler)
    → FillerInv h.filler
    → Passes h
    → q.event ≡ llm_prepare_interim_filler text (some c)
    → Leaves h
        (llm_dispatch (llm_prepare_interim_filler text (some c)) q h).0
        (llm_dispatch (llm_prepare_interim_filler text (some c)) q h).1
unfolding llm_dispatch handle_interim_transcript chunk_texts completed_texts
interim-Leaves text c q h v w e = ground (arith, on_interim-consumed text h.filler v, e, w)

other-Leaves :
    (q : Packet) (h : LlmHandler)
    → Passes h
    → chunk_of q.event ≡ []
    → completed_of q.event ≡ []
    → Leaves h h (sends q ∷ [])
unfolding chunk_texts completed_texts
other-Leaves q h w c d = ground (arith, w)

dispatch-Leaves :
    (e : Event) (q : Packet) (h : LlmHandler)
    → FillerInv h.filler
    → Passes h
    → q.event ≡ e
    → bears_on_none e ≡ true
    → Leaves h (llm_dispatch e q h).0 (llm_dispatch e q h).1
dispatch-Leaves (llm_prepare_interim_filler t none) q h v w e b = absurd (cc b)
dispatch-Leaves (llm_prepare_interim_filler t (some c)) q h v w e b = interim-Leaves t c q h v w e
dispatch-Leaves (llm_generate_response c) q h v w e b = absurd (cc b)
dispatch-Leaves (llm_response_chunk t a) q h v w e b = absurd (cc b)
dispatch-Leaves (llm_response_completed t) q h v w e b = absurd (cc b)
dispatch-Leaves (llm_variable_confirm_request t) q h v w e b = absurd (cc b)
dispatch-Leaves vad_interruption_suspected q h v w e b = absurd (cc b)
dispatch-Leaves vad_interruption_confirmed q h v w e b = absurd (cc b)
dispatch-Leaves _ q h v w e b =
    unfold llm_dispatch in other-Leaves q h w (ap chunk_of e) (ap completed_of e)

poll-Tells :
    (i : ℕ) (late : Bool) (h : LlmHandler)
    → FillerInv h.filler
    → Passes h
    → Tells h.filler.consumed_filler
        (on_poll i late h).0.filler.consumed_filler
        (on_poll i late h).0
        (on_poll i late h).1
unfolding on_poll poll_filler start_completion chunk_texts completed_texts sends_next
poll-Tells i late h v w =
    ground (
      arith,
      append-nil h.filler.consumed_filler,
      append-nil h.filler.pending_filler,
      v.text_used,
      w,
    )

on_filler_answer-consumed :
    (t u : ℕ) (answer : Option (List (String × Json))) (f : FillerState)
    → (on_filler_answer t u answer f).consumed_filler ≡ f.consumed_filler
unfolding on_filler_answer request_failed store_result
on_filler_answer-consumed t u answer f = ground arith

answer-Tells :
    (t u : ℕ) (answer : Option (List (String × Json))) (h : LlmHandler)
    → Passes h
    → let f = on_filler_answer t u answer h.filler in
      Tells h.filler.consumed_filler f.consumed_filler (record h { filler = f }) []
unfolding chunk_texts completed_texts
answer-Tells t u answer h w =
    ground
      (arith, append-nil h.filler.consumed_filler, on_filler_answer-consumed t u answer h.filler, w)

bridge_texts :
    (t : Text) (answer : Option (List (String × Json)))
    → (chunk_texts (on_bridge_answer t answer) ≡ [])
      × (completed_texts (on_bridge_answer t answer) ≡ [])
unfolding on_bridge_answer chunk_texts completed_texts sends_next
bridge_texts t answer = ground arith

-- Before the start of a response what has been told of it is the filler.
pub prepare-Tells :
    (i : LlmInput) (h : LlmHandler)
    → FillerInv h.filler
    → Passes h
    → prepares i ≡ true
    → Tells h.filler.consumed_filler
        (llm_step_alive i h).0.filler.consumed_filler
        (llm_step_alive i h).0
        (llm_step_alive i h).1
unfolding llm_step_alive llm_handle_event
prepare-Tells (handles q) h v w p =
    let l = dispatch-Leaves q.event q h v w refl p in
    subst
      (λ t.
        Tells h.filler.consumed_filler t (llm_dispatch q.event q h).0 (llm_dispatch q.event q h).1)
      (sym l.same_filler)
      (silent-Tells h.filler.consumed_filler (llm_dispatch q.event q h).0
        (llm_dispatch q.event q h).1 l.passes (l.no_chunk, l.no_end))
prepare-Tells (polls i late) h v w p = poll-Tells i late h v w
prepare-Tells (answers_filler t u a) h v w p = answer-Tells t u a h w
prepare-Tells (answers_bridge t a) h v w p =
    silent-Tells h.filler.consumed_filler h (on_bridge_answer t a) w (bridge_texts t a)
prepare-Tells (takes_message m) h v w p = absurd (cc p)
prepare-Tells (takes_tool_call t ps) h v w p = absurd (cc p)
prepare-Tells takes_start h v w p = absurd (cc p)
prepare-Tells takes_end h v w p = absurd (cc p)

message-Tells :
    (m : Text) (h : LlmHandler)
    → Passes h
    → Tells h.full_text (on_message m h).0.full_text (on_message m h).0 (on_message m h).1
unfolding on_message chunk_texts completed_texts sends_next
message-Tells m h w = ground (arith, append-nil m, w)

tool_call-Tells :
    (t : String) (ps : Params) (h : LlmHandler)
    → Passes h
    → Tells h.full_text
        (on_tool_call t ps h).0.full_text
        (on_tool_call t ps h).0
        (on_tool_call t ps h).1
unfolding on_tool_call chunk_texts completed_texts sends_next
tool_call-Tells t ps h w = ground (arith, append-nil h.full_text, w)

-- Between its start and its end it is the text of the event loop.
pub stream-Tells :
    (i : LlmInput) (h : LlmHandler)
    → FillerInv h.filler
    → Passes h
    → streams i ≡ true
    → Tells h.full_text
        (llm_step_alive i h).0.full_text
        (llm_step_alive i h).0
        (llm_step_alive i h).1
unfolding llm_step_alive llm_handle_event
stream-Tells (handles q) h v w p =
    let l = dispatch-Leaves q.event q h v w refl p in
    subst (λ t. Tells h.full_text t (llm_dispatch q.event q h).0 (llm_dispatch q.event q h).1)
      (sym l.same_text)
      (silent-Tells h.full_text (llm_dispatch q.event q h).0 (llm_dispatch q.event q h).1 l.passes
        (l.no_chunk, l.no_end))
stream-Tells (takes_message m) h v w p = message-Tells m h w
stream-Tells (takes_tool_call t ps) h v w p = tool_call-Tells t ps h w
stream-Tells (answers_filler t u a) h v w p =
    unfold chunk_texts completed_texts in
    silent-Tells h.full_text (record h { filler = on_filler_answer t u a h.filler }) []
      (record { alive = w.alive; passing = w.passing }) (refl, refl)
stream-Tells (answers_bridge t a) h v w p =
    silent-Tells h.full_text h (on_bridge_answer t a) w (bridge_texts t a)
stream-Tells (polls i late) h v w p = absurd (cc p)
stream-Tells takes_start h v w p = absurd (cc p)
stream-Tells takes_end h v w p = absurd (cc p)
