-- ===== src/Speech/Segments.antt =====
-- Where the chunks of a response go.
use interact_kit_sdk.Prelude.{
  ◌≡◌, refl, sym, ap, ap₂, subst, ◌∙◌, inl, inr, true, false, ◌&&◌, Option, none, some, List, [],
  ◌∷◌, ◌++◌, map, append-nil, append_assoc, arith, leb, is_some, Bool-cases, Option-cases, All,
}
use interact_kit_sdk.Text.{byte_len, Text}
use interact_kit_sdk.Events.{llm_response_chunk, Event, Packet}
use interact_kit_sdk.Speech.{
  tts_run, byte_len, passes, has_break_word, on_chunk, buffers, tts_dispatch, Answers, Call,
  TtsHandler, tts_handle_event,
}

-- the text of a chunk that may wait in the buffer
abbrev pub chunk_text : Event → Option Text
chunk_text (llm_response_chunk t false) = some t
chunk_text _ = none

abbrev pub AreChunks : List (Answers × Packet) → Type 0
AreChunks = All (λ q. is_some (chunk_text q.1.event) ≡ true)

unfoldable pub response : List (Answers × Packet) → Text
response [] = []
response ((a, q) ∷ qs) = elim (chunk_text q.event) [
  | none ↦ response qs
  | some t ↦ t ++ response qs
]

-- the texts that the service is given
unfoldable pub buffered : List Call → List Text
buffered [] = []
buffered (c ∷ cs) = elim c [ buffers t b ↦ t ∷ buffered cs | _ ↦ buffered cs ]

unfoldable pub joined : List Text → Text
joined [] = []
joined (t ∷ ts) = t ++ joined ts

buffered-append : (xs ys : List Call) → buffered (xs ++ ys) ≡ buffered xs ++ buffered ys
unfolding buffered
buffered-append [] ys = refl
buffered-append (x ∷ xs) ys = ground (arith, buffered-append xs ys)

joined-append : (xs ys : List Text) → joined (xs ++ ys) ≡ joined xs ++ joined ys
unfolding joined
joined-append [] ys = refl
joined-append (x ∷ xs) ys = rw (joined-append xs ys) (sym (append_assoc x (joined xs) (joined ys)))

map-append_texts : (f : Text → Text) (xs ys : List Text) → map f (xs ++ ys) ≡ map f xs ++ map f ys
map-append_texts f [] ys = refl
map-append_texts f (x ∷ xs) ys = ap (◌∷◌ (f x)) (map-append_texts f xs ys)

module _ (normalize : Text → Text) where
  -- one chunk is kept, or closes a segment, which is buffered
  pub record Segments (old : Text) (calls : List Call) (left : Text) : Type 0 where
    pub segments : List Text
    pub are_buffered : buffered calls ≡ map normalize segments
    pub add_up : joined segments ++ left ≡ old

  on_chunk-Segments :
      (a : Answers) (t : Text) (h : TtsHandler)
      → let (h', calls) = on_chunk normalize a t h in
        Segments (h.text_buffer ++ t) calls h'.text_buffer
  unfolding on_chunk
  on_chunk-Segments a t h =
      let all = h.text_buffer ++ t in
      elim (Bool-cases (has_break_word h.break_words all && leb h.min_text_length (byte_len all))) [
        | inl e ↦ rw e (record {
          segments = all ∷ [];
          are_buffered = unfold buffered in ground arith;
          add_up = unfold joined in append-nil (all ++ []) ∙ append-nil all;
        })
        | inr e ↦ rw e (record {
          segments = [];
          are_buffered = unfold buffered in refl;
          add_up = unfold joined in refl;
        })
      ]

  pass-Segments :
      (old left : Text) (calls : List Call) (q : Packet)
      → Segments old calls left
      → Segments old (calls ++ passes q ∷ []) left
  pass-Segments old left calls q s = record {
    segments = s.segments;
    are_buffered =
        buffered-append calls (passes q ∷ [])
        ∙ unfold buffered in append-nil (buffered calls) ∙ s.are_buffered;
    add_up = s.add_up;
  }

  chunk_text-eq : (e : Event) (t : Text) → chunk_text e ≡ some t → e ≡ llm_response_chunk t false
  chunk_text-eq e t h = ground arith

  chunk-Segments :
      (a : Answers) (q : Packet) (t : Text) (h : TtsHandler)
      → chunk_text q.event ≡ some t
      → let (h', calls) = tts_handle_event normalize a q h in
        Segments (h.text_buffer ++ t) calls h'.text_buffer
  unfolding tts_handle_event
  chunk-Segments a q t h e =
      let (h', calls) = tts_dispatch normalize a q.event h in
      pass-Segments (h.text_buffer ++ t) h'.text_buffer calls q
        (rw (chunk_text-eq q.event t e) (unfold tts_dispatch in on_chunk-Segments a t h))

  then-Segments :
      (old mid left : Text) (rest : Text) (xs ys : List Call)
      → Segments old xs mid
      → Segments (mid ++ rest) ys left
      → Segments (old ++ rest) (xs ++ ys) left
  then-Segments old mid left rest xs ys s r = record {
    segments = s.segments ++ r.segments;
    are_buffered =
        buffered-append xs ys
        ∙ ap₂ (λ a b. a ++ b) s.are_buffered r.are_buffered
        ∙ sym (map-append_texts normalize s.segments r.segments);
    add_up =
        ap (λ x. x ++ left) (joined-append s.segments r.segments)
        ∙ append_assoc (joined s.segments) (joined r.segments) left
        ∙ ap (λ x. joined s.segments ++ x) r.add_up
        ∙ sym (append_assoc (joined s.segments) mid rest)
        ∙ ap (λ x. x ++ rest) s.add_up;
  }

  response-some :
      (a : Answers) (q : Packet) (t : Text) (qs : List (Answers × Packet))
      → chunk_text q.event ≡ some t
      → response ((a, q) ∷ qs) ≡ t ++ response qs
  unfolding response
  response-some a q t qs e = ground arith

  -- Over any chunks of a response that are not to be spoken at once, whatever the service answers:
  -- what was waiting and then the chunks, as one text, is cut into segments and a rest; the service
  -- is given the segments, normalized, in order, and the rest waits. No character is lost or doubled.
  pub tts_run-Segments :
      (qs : List (Answers × Packet)) (h : TtsHandler)
      → AreChunks qs
      → let (h', calls) = tts_run normalize qs h in
        Segments (h.text_buffer ++ response qs) calls h'.text_buffer
  unfolding tts_run
  tts_run-Segments [] h s = record {
    segments = [];
    are_buffered = unfold buffered in refl;
    add_up = unfold joined response in sym (append-nil h.text_buffer);
  }
  tts_run-Segments ((a, q) ∷ qs) h (s, ss) = elim (Option-cases (chunk_text q.event)) [
    | inl e ↦ absurd (ground (arith, s, e))
    | inr (t, e) ↦
        let (h1, calls) = tts_handle_event normalize a q h in
        let (h2, later) = tts_run normalize qs h1 in
        subst (λ old. Segments old (calls ++ later) h2.text_buffer)
          (append_assoc h.text_buffer t (response qs)
            ∙ ap (λ x. h.text_buffer ++ x) (sym (response-some a q t qs e)))
          (then-Segments (h.text_buffer ++ t) h1.text_buffer h2.text_buffer (response qs) calls
            later (chunk-Segments a q t h e) (tts_run-Segments qs h1 ss))
  ]
