-- ===== src/Llm/Completed.antt =====
-- The text of a response when it is complete.
use interact_kit_sdk.Events.{llm_generate_response, LlmContext, Packet}
use interact_kit_sdk.Llm.Filler.{get_consumed_filler}
use interact_kit_sdk.Llm.Invariant.{llm_run-FillerInv, run-FillerInv, step-FillerInv, FillerInv}
use interact_kit_sdk.Llm.Texts.{
  completed_texts-append, completed_texts, chunk_texts-append, chunk_texts,
}
use interact_kit_sdk.Llm.Relaying.{stream-Tells, prepare-Tells, prepares, streams, Passes, Tells}
use interact_kit_sdk.Prelude.{
  ◌≡◌, refl, sym, ap, ◌∙◌, Bool, true, false, List, [], ◌∷◌, ◌++◌, append-nil, append_assoc, arith,
  All,
}
use interact_kit_sdk.Text.{Text}
use interact_kit_sdk.Llm.Handler.{
  new_llm_handler, llm_dispatch, sends_next, llm_handle_event, LlmHandler, LlmEffect,
}
use interact_kit_sdk.Llm.Loop.{
  handles, llm_step_alive_lem, takes_end, takes_start, on_end, on_start, llm_step_alive, llm_step,
  llm_run, LlmInput,
}

Tells-then :
    (s t u : Text) (h h' : LlmHandler) (out later : List LlmEffect)
    → Tells s t h out
    → Tells t u h' later
    → Tells s u h' (out ++ later)
Tells-then s t u h h' out later a b = record {
  passes = b.passes;
  told =
      ap (λ x. s ++ x) (chunk_texts-append out later)
      ∙ sym (append_assoc s (chunk_texts out) (chunk_texts later))
      ∙ ap (λ x. x ++ chunk_texts later) a.told
      ∙ b.told;
  no_end =
      completed_texts-append out later ∙ ap (λ x. x ++ completed_texts later) a.no_end ∙ b.no_end;
}

Tells-nothing : (t : Text) (h : LlmHandler) → Passes h → Tells t t h []
unfolding chunk_texts completed_texts
Tells-nothing t h w = record { passes = w; told = append-nil t; no_end = refl }

prepare_run-Tells :
    (is : List LlmInput) (h : LlmHandler)
    → FillerInv h.filler
    → Passes h
    → All (λ i. prepares i ≡ true) is
    → Tells h.filler.consumed_filler
        (llm_run is h).0.filler.consumed_filler
        (llm_run is h).0
        (llm_run is h).1
unfolding llm_run
prepare_run-Tells [] h v w p = Tells-nothing h.filler.consumed_filler h w
prepare_run-Tells (i ∷ is) h v w (p, ps) =
    let (h1, out) = llm_step i h in
    let a : Tells h.filler.consumed_filler h1.filler.consumed_filler h1 out =
      rw (llm_step_alive_lem i h w.alive) (prepare-Tells i h v w p) in
    Tells-then h.filler.consumed_filler h1.filler.consumed_filler
      (llm_run is h1).0.filler.consumed_filler h1 (llm_run is h1).0 out (llm_run is h1).1 a
      (prepare_run-Tells is h1 (step-FillerInv i h v) a.passes ps)

stream_run-Tells :
    (is : List LlmInput) (h : LlmHandler)
    → FillerInv h.filler
    → Passes h
    → All (λ i. streams i ≡ true) is
    → Tells h.full_text (llm_run is h).0.full_text (llm_run is h).0 (llm_run is h).1
unfolding llm_run
stream_run-Tells [] h v w p = Tells-nothing h.full_text h w
stream_run-Tells (i ∷ is) h v w (p, ps) =
    let (h1, out) = llm_step i h in
    let a : Tells h.full_text h1.full_text h1 out =
      rw (llm_step_alive_lem i h w.alive) (stream-Tells i h v w p) in
    Tells-then h.full_text h1.full_text (llm_run is h1).0.full_text h1 (llm_run is h1).0 out
      (llm_run is h1).1 a (stream_run-Tells is h1 (step-FillerInv i h v) a.passes ps)

llm_run-append :
    (is js : List LlmInput) (h : LlmHandler)
    → llm_run (is ++ js) h
      ≡ ((llm_run js (llm_run is h).0).0, (llm_run is h).1 ++ (llm_run js (llm_run is h).0).1)
unfolding llm_run
llm_run-append [] js h = refl
llm_run-append (i ∷ is) js h =
    let (h1, out) = llm_step i h in
    ap (λ (x : LlmHandler × List LlmEffect). (x.0, out ++ x.1)) (llm_run-append is js h1)
    ∙ ap (λ x. ((llm_run js (llm_run is h1).0).0, x))
        (sym (append_assoc out (llm_run is h1).1 (llm_run js (llm_run is h1).0).1))

-- a response starts with the filler that was consumed
start-Tells :
    (h : LlmHandler)
    → FillerInv h.filler
    → Passes h
    → Tells h.filler.consumed_filler
        (llm_step takes_start h).0.full_text
        (llm_step takes_start h).0
        (llm_step takes_start h).1
unfolding llm_step llm_step_alive on_start get_consumed_filler chunk_texts completed_texts
start-Tells h v w = ground (arith, append-nil h.filler.consumed_filler, v, w)

end_texts :
    (h : LlmHandler)
    → Passes h
    → (chunk_texts (llm_step takes_end h).1 ≡ [])
      × (completed_texts (llm_step takes_end h).1 ≡ h.full_text ∷ [])
unfolding llm_step llm_step_alive on_end chunk_texts completed_texts sends_next
end_texts h w = ground (arith, w)

request-Tells :
    (q : Packet) (c : LlmContext) (h : LlmHandler)
    → q.event ≡ llm_generate_response c
    → h.panicked ≡ false
    → Tells h.filler.consumed_filler
        (llm_step (handles q) h).0.filler.consumed_filler
        (llm_step (handles q) h).0
        (llm_step (handles q) h).1
unfolding llm_step llm_step_alive llm_handle_event llm_dispatch sends_next chunk_texts
    completed_texts
request-Tells q c h e alive = ground (arith, e, append-nil h.filler.consumed_filler)

-- The response ends, and its text is `s` with the text that is sent.
Ends : Text → List LlmEffect → Type 0
unfolding completed_texts chunk_texts
Ends s out = completed_texts out ≡ (s ++ chunk_texts out) ∷ []

Tells-Ends :
    (s t : Text) (h : LlmHandler) (out later : List LlmEffect)
    → Tells s t h out
    → Ends t later
    → Ends s (out ++ later)
unfolding Ends
Tells-Ends s t h out later a e =
    completed_texts-append out later
    ∙ ap (λ x. x ++ completed_texts later) a.no_end
    ∙ e
    ∙ ap (λ x. (x ++ chunk_texts later) ∷ []) (sym a.told)
    ∙ ap (λ x. x ∷ []) (append_assoc s (chunk_texts out) (chunk_texts later))
    ∙ ap (λ x. (s ++ x) ∷ []) (sym (chunk_texts-append out later))

end-Ends : (h : LlmHandler) → Passes h → Ends h.full_text (llm_run (takes_end ∷ []) h).1
unfolding Ends llm_run
end-Ends h w =
    let (c, d) = end_texts h w in
    rw (append-nil (llm_step takes_end h).1, c, append-nil h.full_text) d

stream-Ends :
    (is : List LlmInput) (h : LlmHandler)
    → FillerInv h.filler
    → Passes h
    → All (λ i. streams i ≡ true) is
    → Ends h.full_text (llm_run (is ++ takes_end ∷ []) h).1
stream-Ends is h v w p =
    let a = stream_run-Tells is h v w p in
    let h1 = (llm_run is h).0 in
    rw (llm_run-append is (takes_end ∷ []) h) (
      Tells-Ends h.full_text h1.full_text h1 (llm_run is h).1 (llm_run (takes_end ∷ []) h1).1 a
        (end-Ends h1 a.passes))

start-Ends :
    (is : List LlmInput) (h : LlmHandler)
    → FillerInv h.filler
    → Passes h
    → All (λ i. streams i ≡ true) is
    → Ends h.filler.consumed_filler (llm_run (takes_start ∷ (is ++ takes_end ∷ [])) h).1
unfolding llm_run
start-Ends is h v w p =
    let h1 = (llm_step takes_start h).0 in
    let a = start-Tells h v w in
    Tells-Ends h.filler.consumed_filler h1.full_text h1 (llm_step takes_start h).1
      (llm_run (is ++ takes_end ∷ []) h1).1 a
      (stream-Ends is h1 (step-FillerInv takes_start h v) a.passes p)

prepare-Ends :
    (mid is : List LlmInput) (h : LlmHandler)
    → FillerInv h.filler
    → Passes h
    → All (λ i. prepares i ≡ true) mid
    → All (λ i. streams i ≡ true) is
    → Ends h.filler.consumed_filler (llm_run (mid ++ takes_start ∷ (is ++ takes_end ∷ [])) h).1
prepare-Ends mid is h v w m p =
    let h1 = (llm_run mid h).0 in
    let a = prepare_run-Tells mid h v w m in
    let rest = takes_start ∷ (is ++ takes_end ∷ []) in
    rw (llm_run-append mid rest h) (
      Tells-Ends h.filler.consumed_filler h1.filler.consumed_filler h1 (llm_run mid h).1
        (llm_run rest h1).1 a (start-Ends is h1 (run-FillerInv mid h v) a.passes p))

-- After any inputs to a new handler that leave the process alive and no filler spoken in this turn:
-- where a response is requested, then packets that bear on no response, looks at the filler and
-- answers of services come, then the completion starts, then messages, tool calls, such packets and
-- such answers come, and the completion ends, the handler sends one end of a response, and its full
-- text is the texts of the response that were sent, joined in their order: the filler, if one was
-- ready, and the messages.
pub response_told_whole :
    (fillers dedicated : Bool) (before mid is : List LlmInput) (q : Packet) (c : LlmContext)
    → q.event ≡ llm_generate_response c
    → (llm_run before (new_llm_handler fillers dedicated)).0.panicked ≡ false
    → (llm_run before (new_llm_handler fillers dedicated)).0.filler.consumed_filler ≡ []
    → All (λ i. prepares i ≡ true) mid
    → All (λ i. streams i ≡ true) is
    → let h = (llm_run before (new_llm_handler fillers dedicated)).0 in
      let out = (llm_run (handles q ∷ (mid ++ takes_start ∷ (is ++ takes_end ∷ []))) h).1 in
      completed_texts out ≡ chunk_texts out ∷ []
unfolding llm_run Ends
response_told_whole fillers dedicated before mid is q c e alive unspoken m p =
    let h = (llm_run before (new_llm_handler fillers dedicated)).0 in
    let h1 = (llm_step (handles q) h).0 in
    let rest = mid ++ takes_start ∷ (is ++ takes_end ∷ []) in
    let v = llm_run-FillerInv fillers dedicated before in
    let a = request-Tells q c h e alive in
    Tells-Ends h.filler.consumed_filler h1.filler.consumed_filler h1 (llm_step (handles q) h).1
      (llm_run rest h1).1 a (prepare-Ends mid is h1 (step-FillerInv (handles q) h v) a.passes m p)
    ∙ ap (λ x. (x ++ chunk_texts ((llm_step (handles q) h).1 ++ (llm_run rest h1).1)) ∷ []) unspoken
