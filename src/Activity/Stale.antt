-- ===== src/Activity/Stale.antt =====
-- The signal in `resumeChan` of the activity control handler after a confirmed interruption:
-- `stopConfirmTimer` leaves the channel alone.
use interact_kit_sdk.Events.{
  next_service, vad_interruption_confirmed, vad_interruption_suspected, Packet,
}
use interact_kit_sdk.Prelude.{
  ℕ, ◌≡◌, true, false, List, [], ◌∷◌, ◌++◌, append-nil, append_assoc, arith, All,
}
use interact_kit_sdk.Activity.{Seconds, Handler, Input, arrives, fires, orphan, resumes, step, run}
use interact_kit_sdk.Activity.Invariant.{is_audio, received}

abbrev pub suspicion : Packet
suspicion = record {
  event = vad_interruption_suspected;
  destination = next_service;
  relayer = "VADHandler";
}

abbrev pub confirmation : Packet
confirmation = record {
  event = vad_interruption_confirmed;
  destination = next_service;
  relayer = "LLMContextManager";
}

module _ (f : Seconds) where
  abbrev pub IsAudioInput : Input → Type 0
  IsAudioInput (arrives now p) = is_audio p.event ≡ true
  IsAudioInput _ = ⊥

  -- while suspended, audio is only cached
  run-suspended :
      (is : List Input) (h : Handler f)
      → h.is_suspended ≡ true
      → All IsAudioInput is
      → run f is h ≡ (record h { cached_chunks = h.cached_chunks ++ received is }, [])
  unfolding run step
  run-suspended [] h s a = ground (arith, append-nil h.cached_chunks)
  run-suspended (arrives now p ∷ is) h s (a, as') = ground (
    arith,
    run-suspended is (record h { cached_chunks = h.cached_chunks ++ p ∷ [] }) s as',
    append_assoc h.cached_chunks (p ∷ []) (received is),
  )
  run-suspended (fires ∷ is) h s (a, as') = absurd a
  run-suspended (orphan ∷ is) h s (a, as') = absurd a
  run-suspended (resumes ∷ is) h s (a, as') = absurd a

  -- Where a resume signal is pending and the handler is neither suspended nor holds audio, the
  -- next suspension has no effect once the loop takes the signal: all the audio that came after
  -- the suspicion is sent, and the handler is not suspended, while the confirmation timer that the
  -- suspicion started has not fired.
  pub stale_resume_ends_suspension :
      (h : Handler f) (now : ℕ) (p : Packet) (is : List Input)
      → h.resume ≡ true
      → h.is_suspended ≡ false
      → h.cached_chunks ≡ []
      → p.event ≡ vad_interruption_suspected
      → All IsAudioInput is
      → let h1 = (step f (arrives now p) h).0 in
        let h2 = (run f is h1).0 in
        ((step f resumes h2).1 ≡ received is)
        × ((step f resumes h2).0.is_suspended ≡ false)
        × ((step f resumes h2).0.armed ≡ true)
  unfolding step
  stale_resume_ends_suspension h now p is r s c e a =
      let h1 = (step f (arrives now p) h).0 in ground (arith, run-suspended is h1 (ground arith) a)
