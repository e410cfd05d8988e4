-- ===== src/Services/Shared.antt =====
-- What the text-to-speech services of services/ share: each has these in its own file, in the same
-- words.
use interact_kit_sdk.Text.{Text}
use interact_kit_sdk.Prelude.{
  ℕ, zero, suc, ◌+◌, Bool, false, ◌&&◌, ◌||◌, Option, none, some, List, [], ◌∷◌, ltb, ◌==◌,
  if◌then◌else◌,
}

-- a setting that is empty takes its default
abbrev pub default_text : Text → Text → Text
default_text [] t = t
default_text (c ∷ cs) t = c ∷ cs

-- Is this the current session?
abbrev pub is_session : ℕ → Option ℕ → Bool
is_session session none = false
is_session session (some current) = current == session

-- how the attempts to connect end
pub data Dialled : Type 0 where
  connected : ℕ → Dialled
  unreachable interrupted : Dialled

abbrev pub or_else : Option ℕ → Dialled → Dialled
or_else none rest = rest
or_else (some c) rest = connected c

-- The loop of `establishConnection` with `left` attempts to make, given what each dial brings and
-- whether the context ends in the wait before it.
unfoldable pub establish_from : (ℕ → Option ℕ) → (ℕ → Bool) → ℕ → ℕ → Dialled
establish_from dials stops zero attempt = unreachable
establish_from dials stops (suc left) attempt =
    let rest = or_else (dials attempt) (establish_from dials stops left (attempt + 1)) in
    if ltb 0 attempt && stops attempt then interrupted else rest

-- `establishConnection`, with its `maxRetries`
unfoldable pub establish : (ℕ → Option ℕ) → (ℕ → Bool) → Dialled
unfolding establish_from
establish dials stops = establish_from dials stops 3 0

-- Is a session, or a connection, in a list?
unfoldable pub holds : ℕ → List ℕ → Bool
holds session [] = false
holds session (x ∷ xs) = x == session || holds session xs
