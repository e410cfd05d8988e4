-- ===== src/Services/DeepgramTts/Delivers.antt =====
-- The texts that `BufferText` of services/deepgram/tts/tts.go sends, against the text it is given.
use interact_kit_sdk.Services.DeepgramTts.Socket.{close_stream, clear, flush, Frame}
use interact_kit_sdk.Services.DeepgramTts.Limit.{spoken-append, take-append-drop, spoken}
use interact_kit_sdk.Audio.Bytes.{Bytes}
use interact_kit_sdk.Services.DeepgramTts.{
  speak, max_chars, send_left, send_last, send_text, after_chunk, chunk_size, Frame, Split, split,
}
use interact_kit_sdk.Services.DeepgramTts.Encoding.{IsAscii, json_text-ascii, received}
use interact_kit_sdk.Prelude.{
  ℕ, zero, suc, ◌+◌, ◌≤◌, ◌≡◌, refl, sym, ap, ap₂, subst, ◌∙◌, inl, inr, Bool, true, Option, none,
  some, List, [], ◌∷◌, ◌++◌, append-nil, append_assoc, arith, ltb, leb, ltb-false→le, Bool-cases,
  length, take, drop, length-drop, All-append_right, All-append_left,
}

-- A loop that ends leaves at most a chunk, and has sent what stands before it.
abbrev Parts : Bytes → List Frame → Option (ℕ × Bytes) → Type 0
Parts whole frames none = Unit
Parts whole frames (some (k, text)) = (spoken frames ++ text ≡ whole) × (length text ≤ chunk_size)

after_chunk-Parts :
    (whole : Bytes) (s : Split)
    → Parts (drop chunk_size whole) s.0 s.2
    → Parts whole
        (after_chunk (take chunk_size whole) s).0
        (after_chunk (take chunk_size whole) s).2
unfolding spoken
after_chunk-Parts whole (frames, count, none) h = tt
after_chunk-Parts whole (frames, count, some (k, text)) (same, short) = (
  append_assoc (take chunk_size whole) (spoken frames) text
      ∙ ap (λ z. take chunk_size whole ++ z) same
      ∙ take-append-drop chunk_size whole,
  short,
)

split-Parts :
    (written : ℕ → Bool) (fuel k count : ℕ) (text : Bytes)
    → length text ≤ fuel
    → Parts text (split written fuel k count text).0 (split written fuel k count text).2
unfolding split spoken
split-Parts written zero k count text h = (refl, omega arith)
split-Parts written (suc fuel) k count text h =
    let later = split written fuel (k + 2) 0 (drop chunk_size text) in
    let ih = after_chunk-Parts text later (
      split-Parts written fuel (k + 2) 0 (drop chunk_size text)
        (omega (arith, length-drop chunk_size text))) in
    elim (Bool-cases (ltb chunk_size (length text))) [
      | inr fits ↦ rw fits (refl, ltb-false→le chunk_size (length text) fits)
      | inl long ↦ elim (Bool-cases (written k)) [
        | inr failed ↦ rw (long, failed) tt
        | inl first ↦ elim (Bool-cases (written (k + 1))) [
          | inr failed ↦ rw (long, first, failed) tt
          | inl second ↦ rw (long, first, second) ih
        ]
      ]
    ]

send_last-spoken :
    (written : ℕ → Bool) (k count : ℕ) (text : Bytes)
    → (send_last written k count text).2 ≡ true
    → spoken (send_last written k count text).0 ≡ text
unfolding send_last spoken
send_last-spoken written k count text h = elim (Bool-cases (leb max_chars (count + length text))) [
  | inr room ↦ let wrote : written k ≡ true = rw room at h in rw (room, wrote) (append-nil text)
  | inl near ↦
      let wrote : written (k + 1) ≡ true = rw near at h in
      elim (Bool-cases (written k)) [
        | inl flushed ↦ rw (near, flushed, wrote) (append-nil text)
        | inr failed ↦ rw (near, failed, wrote) (append-nil text)
      ]
]

send_left-spoken :
    (written : ℕ → Bool) (s : Split) (text : Bytes)
    → Parts text s.0 s.2
    → (send_left written s).2 ≡ true
    → spoken (send_left written s).0 ≡ text
unfolding send_left
send_left-spoken written (frames, count, none) text p h = cc
send_left-spoken written (frames, count, some (k, rest)) text (same, short) h =
    spoken-append frames (send_last written k count rest).0
    ∙ ap (λ z. spoken frames ++ z) (send_last-spoken written k count rest h)
    ∙ same

-- A text of one byte to a character is cut between characters, and reaches the server as it is.
received-spoken : (fs : List Frame) → IsAscii (spoken fs) → received fs ≡ spoken fs
unfolding received spoken
received-spoken [] h = refl
received-spoken (speak t ∷ fs) h =
    ap₂ (λ x y. x ++ y) (json_text-ascii t (All-append_left _ t (spoken fs) h))
      (received-spoken fs (All-append_right _ t (spoken fs) h))
received-spoken (flush ∷ fs) h = received-spoken fs h
received-spoken (clear ∷ fs) h = received-spoken fs h
received-spoken (close_stream ∷ fs) h = received-spoken fs h

-- the texts of the messages, before they are encoded, are the text that is cut
send_text-cuts :
    (written : ℕ → Bool) (count : ℕ) (text : Bytes)
    → (send_text written count text).2 ≡ true
    → spoken (send_text written count text).0 ≡ text
unfolding send_text
send_text-cuts written count text h =
    send_left-spoken written (split written (length text) 0 count text) text
      (split-Parts written (length text) 0 count text (omega arith)) h

-- A text of ASCII characters, whatever the outcomes of the writes and the characters that were
-- counted before: where `BufferText` returns without an error, the texts that the server reads in
-- its messages, joined, are the text that it was given.
pub send_text-received :
    (written : ℕ → Bool) (count : ℕ) (text : Bytes)
    → IsAscii text
    → (send_text written count text).2 ≡ true
    → received (send_text written count text).0 ≡ text
send_text-received written count text ascii h =
    let whole = send_text-cuts written count text h in
    received-spoken (send_text written count text).0 (subst IsAscii (sym whole) ascii) ∙ whole
