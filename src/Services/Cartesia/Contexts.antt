-- ===== src/Services/Cartesia/Contexts.antt =====
-- The contexts of services/cartesia/tts/tts.go, along any sequence of its calls: `BufferText` sends
-- texts under the context of the service, `Flush` finishes it, `Reset` cancels it.
use interact_kit_sdk.Services.Shared.{Dialled}
use interact_kit_sdk.Text.{text_eq, Text}
use interact_kit_sdk.Services.Cartesia.{
  starts_heartbeat, starts_reader, reconnect, reports, buffer_text, emits, start_session, cleanup,
  closes, initialize, Fault, cancels, rotate, writes, requests, Effect, CartesiaTts, Done, Text,
  Dialled, Message, flush, reset,
}
use interact_kit_sdk.Prelude.{
  ℕ, suc, ◌<◌, ◌≡◌, refl, Bool, true, false, not, ◌&&◌, ◌||◌, Option, List, [], ◌∷◌, ◌++◌, arith,
  if◌then◌else◌, All,
}

-- the calls, and the reconnection of the reader
pub data Action : Type 0 where
  initializes cleans_up : Action
  starts : Bool → Bool → Bool → ℕ → Dialled → Action
  buffers : Bool → Text → Action
  finishes resets : Bool → Action
  reconnects : Dialled → Action

unfoldable pub act : (ℕ → Text) → Action → CartesiaTts → Done
act uuid initializes s = initialize uuid s
act uuid cleans_up s = cleanup s
act uuid (starts o e d session dialled) s = start_session o e d session dialled s
act uuid (buffers written t) s = buffer_text written t s
act uuid (finishes written) s = flush uuid written s
act uuid (resets written) s = reset uuid written s
act uuid (reconnects dialled) s = reconnect dialled s

unfoldable pub acts : (ℕ → Text) → List Action → CartesiaTts → CartesiaTts × List Effect
unfolding act
acts uuid [] s = (s, [])
acts uuid (a ∷ actions) s =
    let (next, out, fault) = act uuid a s in
    let (last, more) = acts uuid actions next in (last, out ++ more)

-- Is a context in the list?
unfoldable pub lists : Text → List Text → Bool
lists t [] = false
lists t (u ∷ us) = text_eq u t || lists t us

-- the contexts that a message ends
abbrev pub ends_of : Message → List Text → List Text
ends_of (requests r) k = if r.flushes then r.context_id ∷ k else k
ends_of (cancels id) k = id ∷ k

abbrev pub context_of : Message → Text
context_of (requests r) = r.context_id
context_of (cancels id) = id

-- the contexts that have ended, by a request that flushes or by a cancel message
unfoldable pub ended_contexts : List Text → List Effect → List Text
ended_contexts k [] = k
ended_contexts k (writes c m ∷ out) = ended_contexts (ends_of m k) out
ended_contexts k (closes c ∷ out) = ended_contexts k out
ended_contexts k (emits s b ∷ out) = ended_contexts k out
ended_contexts k (reports s t ∷ out) = ended_contexts k out
ended_contexts k (starts_reader s ∷ out) = ended_contexts k out
ended_contexts k (starts_heartbeat ∷ out) = ended_contexts k out

-- Is each message under a context that has not ended before it?
unfoldable pub open_contexts : List Text → List Effect → Bool
open_contexts k [] = true
open_contexts k (writes c m ∷ out) = not (lists (context_of m) k) && open_contexts (ends_of m k) out
open_contexts k (closes c ∷ out) = open_contexts k out
open_contexts k (emits s b ∷ out) = open_contexts k out
open_contexts k (reports s t ∷ out) = open_contexts k out
open_contexts k (starts_reader s ∷ out) = open_contexts k out
open_contexts k (starts_heartbeat ∷ out) = open_contexts k out

pub ended_contexts-append :
    (k : List Text) (xs ys : List Effect)
    → ended_contexts k (xs ++ ys) ≡ ended_contexts (ended_contexts k xs) ys
unfolding ended_contexts
ended_contexts-append k [] ys = refl
ended_contexts-append k (writes c m ∷ xs) ys = ended_contexts-append (ends_of m k) xs ys
ended_contexts-append k (closes c ∷ xs) ys = ended_contexts-append k xs ys
ended_contexts-append k (emits s b ∷ xs) ys = ended_contexts-append k xs ys
ended_contexts-append k (reports s t ∷ xs) ys = ended_contexts-append k xs ys
ended_contexts-append k (starts_reader s ∷ xs) ys = ended_contexts-append k xs ys
ended_contexts-append k (starts_heartbeat ∷ xs) ys = ended_contexts-append k xs ys

pub open_contexts-append :
    (k : List Text) (xs ys : List Effect)
    → open_contexts k xs ≡ true
    → open_contexts (ended_contexts k xs) ys ≡ true
    → open_contexts k (xs ++ ys) ≡ true
unfolding open_contexts ended_contexts
open_contexts-append k [] ys h l = l
open_contexts-append k (writes c m ∷ xs) ys h l =
    ground (arith, open_contexts-append (ends_of m k) xs ys)
open_contexts-append k (closes c ∷ xs) ys h l = open_contexts-append k xs ys h l
open_contexts-append k (emits s b ∷ xs) ys h l = open_contexts-append k xs ys h l
open_contexts-append k (reports s t ∷ xs) ys h l = open_contexts-append k xs ys h l
open_contexts-append k (starts_reader s ∷ xs) ys h l = open_contexts-append k xs ys h l
open_contexts-append k (starts_heartbeat ∷ xs) ys h l = open_contexts-append k xs ys h l

module _ (uuid : ℕ → Text) where
  -- the n-th UUID is among those drawn before
  abbrev pub Old : ℕ → List Text → Type 0
  Old n = All (λ t. (j : ℕ) × (j < n) × (t ≡ uuid j))

  pub Old-suc : (n : ℕ) (k : List Text) → Old n k → Old (suc n) k
  Old-suc n [] h = tt
  Old-suc n (t ∷ k) ((j, below, e), h) = ((j, omega arith, e), Old-suc n k h)

  -- The ended contexts are older than that of the service, which is the last that was drawn.
  pub record Current (k : List Text) (s : CartesiaTts) (m : ℕ) : Type 0 where
    pub last : s.drawn ≡ suc m
    pub current : s.context ≡ uuid m
    pub older : Old m k

  pub record IsFresh (k : List Text) (s : CartesiaTts) : Type 0 where
    pub drawn_before : Old s.drawn k
    pub when_initialized : s.is_initialized ≡ true → (m : ℕ) × Current k s m

  -- a state that differs in its connection and its session alone
  abbrev pub Keeps : List Text → Done → Type 0
  Keeps k (s, out, fault) = (open_contexts k out ≡ true) × IsFresh (ended_contexts k out) s

  module _ (k : List Text) (s : CartesiaTts) (fresh : IsFresh k s) where
    pub idle : (o : Option Fault) → Keeps k (s, [], o)
    unfolding open_contexts ended_contexts
    idle o = (refl, fresh)

    pub rotated : Old s.drawn k → IsFresh k (rotate uuid s)
    unfolding rotate
    rotated old = record {
      drawn_before = Old-suc s.drawn k old;
      when_initialized = λ h. (s.drawn, record { last = refl; current = refl; older = old });
    }
