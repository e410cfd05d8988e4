-- ===== src/Services/ElevenLabs/Greeted.antt =====
-- The greeting of a connection in services/elevenlabs/tts/tts.go, along any sequence of calls and
-- steps of its goroutines.
use interact_kit_sdk.Services.ElevenLabs.Reader.{Incoming}
use interact_kit_sdk.Services.ElevenLabs.{
  starts_heartbeat, greeting, starts_reader, reports, emits, closes, says, writes, close_conn,
  close_connection, ElevenLabsTts, Effect,
}
use interact_kit_sdk.Services.Shared.{holds, Dialled}
use interact_kit_sdk.Text.{Text}
use interact_kit_sdk.Prelude.{
  ℕ, ◌≡◌, refl, sym, subst, Bool, true, ◌&&◌, Option, none, some, List, [], ◌∷◌, ◌++◌, arith,
}

-- what the service does next
pub data Action : Type 0 where
  initializes cleans_up : Action
  starts : Bool → Bool → Bool → ℕ → Dialled → Bool → Action
  buffers : Bool → Text → Action
  flushes : Bool → Action
  resets : Dialled → Bool → Action
  reader_tops : ℕ → Bool → Dialled → Bool → Text → Action
  reader_ends : ℕ → Bool → Text → Incoming → Action
  beats : Option ℕ → Bool → Action

-- the connections that have their greeting
unfoldable pub greeted : List ℕ → List Effect → List ℕ
greeted k [] = k
greeted k (writes c greeting ∷ out) = greeted (c ∷ k) out
greeted k (writes c (says t) ∷ out) = greeted k out
greeted k (closes c ∷ out) = greeted k out
greeted k (emits s b ∷ out) = greeted k out
greeted k (reports s t ∷ out) = greeted k out
greeted k (starts_reader s ∷ out) = greeted k out
greeted k (starts_heartbeat ∷ out) = greeted k out

-- Does each text go to a connection that has its greeting?
unfoldable pub greets_first : List ℕ → List Effect → Bool
greets_first k [] = true
greets_first k (writes c greeting ∷ out) = greets_first (c ∷ k) out
greets_first k (writes c (says t) ∷ out) = holds c k && greets_first k out
greets_first k (closes c ∷ out) = greets_first k out
greets_first k (emits s b ∷ out) = greets_first k out
greets_first k (reports s t ∷ out) = greets_first k out
greets_first k (starts_reader s ∷ out) = greets_first k out
greets_first k (starts_heartbeat ∷ out) = greets_first k out

-- Has the connection of the service its greeting?
abbrev pub linked_greeted : Option ℕ → List ℕ → Bool
linked_greeted none k = true
linked_greeted (some c) k = holds c k

greeted-append :
    (k : List ℕ) (xs ys : List Effect) → greeted k (xs ++ ys) ≡ greeted (greeted k xs) ys
unfolding greeted
greeted-append k [] ys = refl
greeted-append k (writes c greeting ∷ xs) ys = greeted-append (c ∷ k) xs ys
greeted-append k (writes c (says t) ∷ xs) ys = greeted-append k xs ys
greeted-append k (closes c ∷ xs) ys = greeted-append k xs ys
greeted-append k (emits s b ∷ xs) ys = greeted-append k xs ys
greeted-append k (reports s t ∷ xs) ys = greeted-append k xs ys
greeted-append k (starts_reader s ∷ xs) ys = greeted-append k xs ys
greeted-append k (starts_heartbeat ∷ xs) ys = greeted-append k xs ys

greets_first-append :
    (k : List ℕ) (xs ys : List Effect)
    → greets_first k xs ≡ true
    → greets_first (greeted k xs) ys ≡ true
    → greets_first k (xs ++ ys) ≡ true
unfolding greets_first greeted
greets_first-append k [] ys h l = l
greets_first-append k (writes c greeting ∷ xs) ys h l = greets_first-append (c ∷ k) xs ys h l
greets_first-append k (writes c (says t) ∷ xs) ys h l = ground (arith, greets_first-append k xs ys)
greets_first-append k (closes c ∷ xs) ys h l = greets_first-append k xs ys h l
greets_first-append k (emits s b ∷ xs) ys h l = greets_first-append k xs ys h l
greets_first-append k (reports s t ∷ xs) ys h l = greets_first-append k xs ys h l
greets_first-append k (starts_reader s ∷ xs) ys h l = greets_first-append k xs ys h l
greets_first-append k (starts_heartbeat ∷ xs) ys h l = greets_first-append k xs ys h l

-- What was done keeps the order, and the connection after it has its greeting.
abbrev pub Keeps : List ℕ → Option ℕ → List Effect → Type 0
Keeps k conn out = (greets_first k out ≡ true) × (linked_greeted conn (greeted k out) ≡ true)

pub Keeps-append :
    (k : List ℕ) (conn conn' : Option ℕ) (xs ys : List Effect)
    → Keeps k conn xs
    → Keeps (greeted k xs) conn' ys
    → Keeps k conn' (xs ++ ys)
Keeps-append k conn conn' xs ys (first, link) (second, link') = (
  greets_first-append k xs ys first second,
  subst (λ j. linked_greeted conn' j ≡ true) (sym (greeted-append k xs ys)) link',
)

module _ (k : List ℕ) (s : ElevenLabsTts) (linked : linked_greeted s.conn k ≡ true) where
  pub idle : Keeps k s.conn []
  unfolding greets_first greeted
  idle = (refl, linked)

  close_conn-Keeps :
      (conn : Option ℕ) → s.conn ≡ conn → Keeps k (close_conn conn s).0.conn (close_conn conn s).1
  unfolding close_conn greets_first greeted
  close_conn-Keeps none e = (refl, linked)
  close_conn-Keeps (some c) e = (refl, refl)

  pub close_connection-Keeps : Keeps k (close_connection s).0.conn (close_connection s).1
  unfolding close_connection
  close_connection-Keeps = close_conn-Keeps s.conn refl
