-- ===== src/Services/OpenAi/Resets.antt =====
-- Streams and contexts across `Reset` in services/openai/llm/llm.go.
use interact_kit_sdk.Text.{is_empty, Text}
use interact_kit_sdk.Services.OpenAi.Client.{
  unregister_stream, stop_all_streams, not_initialized, cleanup, initialize, register_stream, reset,
  requests, is_done, new_client, open_stream, run_completion, Client,
}
use interact_kit_sdk.Prelude.{
  ℕ, suc, ◌≡◌, refl, ◌∙◌, inl, inr, Bool, true, false, ◌&&◌, List, [], ◌∷◌, arith, leb,
  if◌then◌else◌, Bool-cases,
}

-- the calls that change the state
pub data Change : Type 0 where
  initializes resets cleans_up : Change
  registers : ℕ → ℕ → Change
  unregisters : ℕ → Change

unfoldable pub change : Change → Client → Client
change initializes s = (initialize s).0
change resets s = (reset s).0
change cleans_up s = (cleanup s).0
change (registers id stream) s = register_stream id stream s
change (unregisters id) s = unregister_stream id s

unfoldable pub changes : List Change → Client → Client
unfolding change
changes [] s = s
changes (c ∷ cs) s = changes cs (change c s)

-- is every number of the list at most `n`?
abbrev all_upto : ℕ → List ℕ → Bool
all_upto n [] = true
all_upto n (x ∷ xs) = leb x n && all_upto n xs

all_upto-suc : (n : ℕ) (xs : List ℕ) → all_upto n xs ≡ true → all_upto (suc n) xs ≡ true
all_upto-suc n [] h = refl
all_upto-suc n (x ∷ xs) h = ground (arith, all_upto-suc n xs)

-- a number that is yet to come is not in the list
is_done-suc : (n : ℕ) (xs : List ℕ) → all_upto n xs ≡ true → is_done (suc n) xs ≡ false
unfolding is_done
is_done-suc n [] h = refl
is_done-suc n (x ∷ xs) h = ground (arith, is_done-suc n xs)

-- Cancelled contexts have been made, and that of an initialized service lives.
record IsSound (s : Client) : Type 0 where
  made : all_upto s.contexts s.cancelled ≡ true
  lives : s.is_initialized ≡ true → is_done s.contexts s.cancelled ≡ false

module _ (s : Client) (sound : IsSound s) where
  later : all_upto (suc s.contexts) s.cancelled ≡ true
  later = all_upto-suc s.contexts s.cancelled sound.made

  unborn : is_done (suc s.contexts) s.cancelled ≡ false
  unborn = is_done-suc s.contexts s.cancelled sound.made

  initialize-IsSound : IsSound (initialize s).0
  unfolding initialize
  initialize-IsSound = elim (Bool-cases (is_empty s.api_key)) [
    | inl keyless ↦ rw keyless sound
    | inr keyed ↦ rw keyed (record { made = later; lives = λ h. unborn })
  ]

  cancelled_again : all_upto (suc s.contexts) (s.contexts ∷ s.cancelled) ≡ true
  cancelled_again = ground (arith, later)

  unborn_again : is_done (suc s.contexts) (s.contexts ∷ s.cancelled) ≡ false
  unfolding is_done
  unborn_again = ground (arith, unborn)

  reset-IsSound : IsSound (reset s).0
  unfolding reset stop_all_streams
  reset-IsSound = elim (Bool-cases s.has_cancel) [
    | inl has ↦ rw has (record { made = cancelled_again; lives = λ h. unborn_again })
    | inr not_ ↦ rw not_ (record { made = later; lives = λ h. unborn })
  ]

  cleanup-IsSound : IsSound (cleanup s).0
  unfolding cleanup stop_all_streams
  cleanup-IsSound = elim (Bool-cases s.has_cancel) [
    | inl has ↦ rw has (record { made = ground (arith, sound.made); lives = λ h. cc })
    | inr not_ ↦ rw not_ (record { made = sound.made; lives = λ h. cc })
  ]

  change-IsSound : (c : Change) → IsSound (change c s)
  unfolding change register_stream unregister_stream
  change-IsSound initializes = initialize-IsSound
  change-IsSound resets = reset-IsSound
  change-IsSound cleans_up = cleanup-IsSound
  change-IsSound (registers id stream) = record { made = sound.made; lives = sound.lives }
  change-IsSound (unregisters id) = record { made = sound.made; lives = sound.lives }

changes-IsSound : (cs : List Change) (s : Client) → IsSound s → IsSound (changes cs s)
unfolding changes
changes-IsSound [] s sound = sound
changes-IsSound (c ∷ cs) s sound = changes-IsSound cs (change c s) (change-IsSound s sound c)

new_client-IsSound : (key : Text) → IsSound (new_client key)
unfolding new_client is_done
new_client-IsSound key = record { made = refl; lives = λ h. refl }

run_completion-on :
    (s : Client) → IsSound s → s.is_initialized ≡ true → run_completion s ≡ requests s.contexts
unfolding run_completion
run_completion-on s sound init = rw (init, sound.lives init) refl

-- Along any sequence of calls of `Initialize`, `Reset`, `Cleanup` and of the register of streams on
-- a new service: a completion that begins after it is refused where the service is not initialized,
-- and otherwise it gets the newest context, which is not cancelled.
pub run_completion-after :
    (key : Text) (cs : List Change)
    → let s = changes cs (new_client key) in
      run_completion s ≡ (if s.is_initialized then requests s.contexts else not_initialized)
unfolding run_completion
run_completion-after key cs =
    let s = changes cs (new_client key) in
    let sound = changes-IsSound cs (new_client key) (new_client-IsSound key) in
    elim (Bool-cases s.is_initialized) [
      | inl init ↦ run_completion-on s sound init ∙ rw init refl
      | inr not_ ↦ rw not_ refl
    ]

-- A service with no stream opens one, is reset, and opens another; when the function of the first
-- returns, it takes the second off `activeStreams`, though it still runs, and a reset after that
-- closes nothing.
pub unregister-takes_another :
    (first second : ℕ) (s : Client)
    → s.active_streams ≡ []
    → let (id, opened) = open_stream first s in
      let (id', again) = open_stream second (reset opened).0 in
      let after = unregister_stream id again in
      (again.active_streams ≡ (id', second) ∷ [])
      × (after.active_streams ≡ [])
      × ((reset after).1 ≡ [])
unfolding open_stream reset unregister_stream cleanup
unregister-takes_another first second s idle = rw idle (refl, refl, refl)
