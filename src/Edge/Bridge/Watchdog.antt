-- ===== src/Edge/Bridge/Watchdog.antt =====
-- The watchdog.
use rvln.Prelude.{
  ℕ, ◌+◌, ◌≡◌, refl, Bool, true, false, Option, none, some, List, [], ◌∷◌, ◌++◌, ltb, leb, ◌||◌,
  if◌then◌else◌, String, arith,
}
use rvln.Edge.Messages.{FramePath}
use rvln.Edge.Bridge.{ActionPathBridge, receive, tick, stop_path}

deliver : Option FramePath × Bool → List (FramePath × Bool) → List (FramePath × Bool)
deliver (none, late) rest = rest
deliver (some path, late) rest = (path, late) ∷ rest

-- The paths that the timer publishes at the given times, each with whether the input timed out.
unfoldable pub published : List ℕ → ActionPathBridge → List (FramePath × Bool)
unfolding deliver
published [] b = []
published (now ∷ times) b = deliver (tick now b).0 (published times (tick now b).1)

unfoldable pub any_after : ℕ → List ℕ → Bool
any_after t [] = false
any_after t (now ∷ times) = ltb t now || any_after t times

-- The timer's first round at or before time `t`, if there is a round.
unfoldable pub first_by : ℕ → List ℕ → Bool
first_by t [] = false
first_by t (now ∷ times) = leb now t

published_stopped :
    (times : List ℕ) (b : ActionPathBridge)
    → b.stopped ≡ true
    → b.pending ≡ none
    → published times b ≡ []
unfolding published tick
published_stopped [] b h e = refl
published_stopped (now ∷ times) b h e = ground (arith, published_stopped times (tick now b).1)

published_running :
    (times : List ℕ) (b : ActionPathBridge) (t : ℕ)
    → b.stopped ≡ false
    → b.pending ≡ none
    → b.last_rx ≡ some t
    → published times b ≡ (if any_after (t + b.max_age) times then (stop_path b, true) ∷ [] else [])
unfolding published tick any_after
published_running [] b t h e r = refl
published_running (now ∷ times) b t h e r =
    ground (arith, published_stopped times (tick now b).1, published_running times (tick now b).1 t)

-- After a path is received at time `t` and until the next one, whatever the times at which the
-- timer runs, these are all the paths that it publishes: first the received one, once, if its first
-- round comes at most `max_age` after `t`; then the stop, which is the path without poses in the
-- bridge's frame, once and as a time-out, if some round comes more than `max_age` after `t`.
pub watchdog_lem :
    (path : FramePath) (goal_id : String) (t : ℕ) (times : List ℕ) (b : ActionPathBridge)
    → published times (receive path goal_id t b).1
      ≡ (if first_by (t + b.max_age) times then (path, false) ∷ [] else [])
        ++ (if any_after (t + b.max_age) times then (stop_path b, true) ∷ [] else [])
unfolding receive published tick first_by any_after
watchdog_lem path goal_id t [] b = refl
watchdog_lem path goal_id t (now ∷ times) b =
    let next : ActionPathBridge = (tick now (receive path goal_id t b).1).1 in
    ground (arith, published_stopped times next, published_running times next t)
