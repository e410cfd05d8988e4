-- ===== src/Services/DeepgramTts/Encoding.antt =====
-- What `sendJSON` of services/deepgram/tts/tts.go makes of the text of a message. encoding/json puts
-- U+FFFD for each byte that is part of no UTF-8 sequence; what it escapes, its reader has back.
use interact_kit_sdk.Audio.Bytes.{Bytes}
use interact_kit_sdk.Services.DeepgramTts.Socket.{Frame, clear, close_stream, flush, speak}
use interact_kit_sdk.Prelude.{
  ℕ, zero, suc, ◌+◌, ◌-◌, ◌<◌, ◌≡◌, refl, ap, Bool, true, false, ◌&&◌, List, [], ◌∷◌, ◌++◌, arith,
  ltb, leb, ◌==◌, if◌then◌else◌, lt→ltb, length, All,
}

-- Is a byte in a range?
abbrev between : ℕ → ℕ → ℕ → Bool
between low high b = leb low b && leb b high

-- the number of bytes of a sequence, by its first byte; 0 for a byte that begins none
unfoldable pub sequence_length : ℕ → ℕ
sequence_length b =
    if ltb b 128
    then 1
    else if between 194 223 b
    then 2
    else if between 224 239 b
    then 3
    else if between 240 244 b
    then 4
    else 0

-- the bytes that may come second
unfoldable pub second_fits : ℕ → ℕ → Bool
second_fits first =
    if first == 224
    then between 160 191
    else if first == 237
    then between 128 159
    else if first == 240
    then between 144 191
    else if first == 244
    then between 128 143
    else between 128 191

-- Do some continuation bytes follow?
unfoldable pub continued : ℕ → Bytes → Bool
continued zero bs = true
continued (suc k) [] = false
continued (suc k) (b ∷ bs) = between 128 191 b && continued k bs

-- Does a sequence of this length stand at its first byte?
unfoldable pub is_sequence : ℕ → ℕ → Bytes → Bool
unfolding second_fits continued
is_sequence zero first bs = false
is_sequence (suc zero) first bs = true
is_sequence (suc (suc k)) first [] = false
is_sequence (suc (suc k)) first (b ∷ bs) = second_fits first b && continued k bs

-- The text that the server reads, where the first `left` bytes belong to a sequence that has begun.
unfoldable pub json_from : ℕ → Bytes → Bytes
unfolding sequence_length is_sequence
json_from left [] = []
json_from (suc left) (b ∷ bs) = b ∷ json_from left bs
json_from zero (b ∷ bs) =
    let invalid = 239 ∷ 191 ∷ 189 ∷ json_from 0 bs in
    let valid = b ∷ json_from (sequence_length b - 1) bs in
    if is_sequence (sequence_length b) b bs then valid else invalid

unfoldable pub json_text : Bytes → Bytes
unfolding json_from
json_text t = json_from 0 t

-- the text of one byte to a character
abbrev pub IsAscii : Bytes → Type 0
IsAscii = All (λ b. b < 128)

pub json_text-ascii : (t : Bytes) → IsAscii t → json_text t ≡ t
unfolding json_text json_from sequence_length is_sequence
json_text-ascii [] h = refl
json_text-ascii (b ∷ bs) (low, h) = rw (lt→ltb b 128 low) (ap (◌∷◌ b) (json_text-ascii bs h))

-- the text that the server reads in the messages
unfoldable pub received : List Frame → Bytes
unfolding json_text
received [] = []
received (speak t ∷ fs) = json_text t ++ received fs
received (flush ∷ fs) = received fs
received (clear ∷ fs) = received fs
received (close_stream ∷ fs) = received fs

-- The characters of a text that is valid: the bytes that begin one.
unfoldable pub characters : Bytes → ℕ
characters [] = 0
characters (b ∷ bs) = let rest = characters bs in if between 128 191 b then rest else suc rest

pub characters-ascii : (t : Bytes) → IsAscii t → characters t ≡ length t
unfolding characters
characters-ascii [] h = refl
characters-ascii (b ∷ bs) (low, h) = ground (arith, characters-ascii bs h)

-- Does the server, which holds `n` characters, never hold more than `cap` over the messages?
unfoldable pub holds_within : ℕ → ℕ → List Frame → Bool
unfolding characters json_text
holds_within cap n [] = leb n cap
holds_within cap n (speak t ∷ fs) = leb n cap && holds_within cap (n + characters (json_text t)) fs
holds_within cap n (flush ∷ fs) = leb n cap && holds_within cap 0 fs
holds_within cap n (clear ∷ fs) = leb n cap && holds_within cap 0 fs
holds_within cap n (close_stream ∷ fs) = leb n cap && holds_within cap n fs
