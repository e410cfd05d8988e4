-- ===== src/Services/DeepgramTts/Shutdown.antt =====
-- The wait of `Cleanup` for `heartbeat` in services/deepgram/tts/tts.go. Both take the mutex `mu`:
-- `Cleanup` from its first line to its return, the deferred function of `heartbeat` to close
-- `heartbeatDone`.
use interact_kit_sdk.Prelude.{◌≡◌, refl, Bool, true, false}

-- Where `Cleanup` stands, its context cancelled: in the wait, or returned. The flag says whether the
-- wait ended by its timeout of five seconds.
pub data CleanupAt : Type 0 where
  waiting : CleanupAt
  finished : Bool → CleanupAt

-- Where `heartbeat` stands: in its loop, in its deferred function, or at its end, the channel closed.
pub data BeatAt : Type 0 where
  looping deferred closed_done : BeatAt

-- Does `Cleanup` hold the mutex?
unfoldable pub holds_mutex : CleanupAt → Bool
holds_mutex waiting = true
holds_mutex (finished t) = false

pub data Shutdown : Type 0 where
  at : CleanupAt → BeatAt → Shutdown

-- The steps of the two goroutines: `heartbeat` sees that the context is done, it closes the channel
-- under the mutex, `Cleanup` sees the channel closed, or its time is up.
pub data Step : Shutdown → Shutdown → Type 0 where
  sees_context : (c : CleanupAt) → Step (at c looping) (at c deferred)
  closes_channel : (c : CleanupAt) → holds_mutex c ≡ false → Step (at c deferred) (at c closed_done)
  sees_channel : Step (at waiting closed_done) (at (finished false) closed_done)
  times_out : (b : BeatAt) → Step (at waiting b) (at (finished true) b)

pub data Steps : Shutdown → Shutdown → Type 0 where
  stays : (s : Shutdown) → Steps s s
  then_step : {s t u : Shutdown} → Steps s t → Step t u → Steps s u

-- the channel is open while `Cleanup` waits, and its wait ends by the timeout
abbrev Blocked : Shutdown → Type 0
Blocked (at waiting looping) = Unit
Blocked (at waiting deferred) = Unit
Blocked (at waiting closed_done) = ⊥
Blocked (at (finished true) b) = Unit
Blocked (at (finished false) b) = ⊥

Step-Blocked : {s t : Shutdown} → Step s t → Blocked s → Blocked t
unfolding holds_mutex
Step-Blocked (sees_context waiting) h = tt
Step-Blocked (sees_context (finished true)) h = tt
Step-Blocked (sees_context (finished false)) h = h
Step-Blocked (closes_channel waiting free) h = cc
Step-Blocked (closes_channel (finished true) free) h = tt
Step-Blocked (closes_channel (finished false) free) h = h
Step-Blocked sees_channel h = h
Step-Blocked (times_out b) h = tt

Steps-Blocked : {s t : Shutdown} → Steps s t → Blocked s → Blocked t
Steps-Blocked (stays s) h = h
Steps-Blocked (then_step r step) h = Step-Blocked step (Steps-Blocked r h)

timed_out : (t : Bool) (b : BeatAt) → Blocked (at (finished t) b) → t ≡ true
timed_out true b h = refl
timed_out false b h = absurd h

-- Whatever the order of the steps: where `heartbeat` still runs when `Cleanup` begins to wait for
-- it, the wait ends by its timeout only.
pub Steps-times_out :
    (t : Bool) (b : BeatAt) → Steps (at waiting looping) (at (finished t) b) → t ≡ true
Steps-times_out t b r = timed_out t b (Steps-Blocked r tt)
