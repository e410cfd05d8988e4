-- ===== src/Tests/DeepgramTests.antt =====
-- Runs of the text-to-speech service of Deepgram, services/deepgram/tts/tts.go.
use interact_kit_sdk.Services.DeepgramTts.Overflow.{buffer_text-overflows}
use interact_kit_sdk.Services.DeepgramTts.Delivers.{send_text-received}
use interact_kit_sdk.Text.{codes}
use interact_kit_sdk.Services.DeepgramTts.{buffer_text, send_left, split, max_chars, send_text}
use interact_kit_sdk.Audio.Bytes.{Bytes}
use interact_kit_sdk.Services.DeepgramTts.Socket.{ready, DeepgramTts}
use interact_kit_sdk.Services.DeepgramTts.Limit.{within}
use interact_kit_sdk.Services.DeepgramTts.Shutdown.{
  times_out, sees_context, looping, waiting, at, stays, then_step, deferred, Steps-times_out,
}
use interact_kit_sdk.Services.DeepgramTts.Encoding.{
  IsAscii, continued, holds_within, is_sequence, json_from, json_text, received, second_fits,
  sequence_length,
}
use interact_kit_sdk.Services.DeepgramTts.Bounded.{
  perform_all-within, perform_all, frames_of, Command, flushes, says,
}
use interact_kit_sdk.Prelude.{
  ℕ, zero, suc, ◌≡◌, refl, true, false, some, List, [], ◌∷◌, ◌++◌, arith,
}

-- some bytes of a text
abbrev letters : ℕ → Bytes
letters zero = []
letters (suc n) = 97 ∷ letters n

-- a service with a session on a connection
abbrev speaker : DeepgramTts
speaker = record {
  config = record { api_key = codes "k"; base_url = codes "wss://d"; model = codes "m" };
  conn = some 4;
  current_session = some 1;
  ended = [];
  cancelled = false;
  heartbeat_done = true;
  heartbeat_started = true;
  char_count = 0;
  is_initialized = true;
}

abbrev says_much : List Command
says_much = says (letters 1500) ∷ says (letters 900) ∷ flushes ∷ []

within_example : within max_chars 0 (frames_of (perform_all says_much speaker).1) ≡ true
within_example =
    perform_all-within says_much 0 speaker (omega arith) (omega arith)
      (omega arith, (omega arith, (tt, tt)))

letters-IsAscii : (n : ℕ) → IsAscii (letters n)
letters-IsAscii zero = tt
letters-IsAscii (suc n) = (omega arith, letters-IsAscii n)

overflows_example :
    holds_within max_chars 1500 (frames_of (buffer_text (λ k. true) (letters 1950) speaker).1)
    ≡ false
unfolding ready
overflows_example =
    buffer_text-overflows 4 1500 (letters 1950) speaker refl (omega arith) (letters-IsAscii 1950)
      (omega arith)

received_example : received (send_text (λ k. true) 1999 (letters 12)).0 ≡ letters 12
unfolding send_text split send_left
received_example = send_text-received (λ k. true) 1999 (letters 12) (letters-IsAscii 12) refl

-- a character of two bytes, and its halves, as two chunks would have them
whole_character : json_text (195 ∷ 169 ∷ []) ≡ 195 ∷ 169 ∷ []
unfolding json_text json_from sequence_length is_sequence continued second_fits
whole_character = refl

cut_character :
    json_text (195 ∷ []) ++ json_text (169 ∷ []) ≡ 239 ∷ 191 ∷ 189 ∷ 239 ∷ 191 ∷ 189 ∷ []
unfolding json_text json_from sequence_length is_sequence continued second_fits
cut_character = refl

times_out_example : true ≡ true
times_out_example =
    Steps-times_out true deferred (
      then_step (then_step (stays (at waiting looping)) (sees_context waiting))
        (times_out deferred))
