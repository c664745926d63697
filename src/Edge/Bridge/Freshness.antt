-- ===== src/Edge/Bridge/Freshness.antt =====
-- What the timer may publish in any interleaving of received chunks and timer rounds.
use rvln.Prelude.{ℕ, ◌+◌, ◌≤◌, ◌≡◌, refl, false, some, List, [], ◌∷◌, String, arith}
use rvln.Edge.Messages.{FramePath}
use rvln.Edge.Bridge.{ActionPathBridge, init, receive, tick}

pub data Call : Type 0 where
  receive_call : FramePath → String → ℕ → Call
  tick_call : ℕ → Call

step : Call → ActionPathBridge → ActionPathBridge
step (receive_call path goal_id now) b = (receive path goal_id now b).1
step (tick_call now) b = (tick now b).1

unfoldable pub run : List Call → ActionPathBridge → ActionPathBridge
unfolding step
run [] b = b
run (call ∷ calls) b = run calls (step call b)

-- A queued path has a time of receipt, and the bridge is not stopped.
record IsSound (max_age : ℕ) (b : ActionPathBridge) : Type 0 where
  configured : b.max_age ≡ max_age
  queued :
      (path : FramePath)
      → b.pending ≡ some path
      → (t : ℕ) × (b.last_rx ≡ some t) × (b.stopped ≡ false)

step-IsSound :
    (max_age : ℕ) (call : Call) (b : ActionPathBridge)
    → IsSound max_age b
    → IsSound max_age (step call b)
unfolding step receive tick
step-IsSound max_age (receive_call path goal_id now) b h = record {
  configured = h.configured;
  queued = λ p e. (now, refl, refl);
}
step-IsSound max_age (tick_call now) b h = record {
  configured = ground (arith, h.configured);
  queued = λ p e. ground (arith, h.queued p);
}

run-IsSound :
    (max_age : ℕ) (calls : List Call) (b : ActionPathBridge)
    → IsSound max_age b
    → IsSound max_age (run calls b)
unfolding run
run-IsSound max_age [] b h = h
run-IsSound max_age (call ∷ calls) b h =
    run-IsSound max_age calls (step call b) (step-IsSound max_age call b h)

init-IsSound : (frame_id : String) (max_age : ℕ) → IsSound max_age (init frame_id max_age)
init-IsSound frame_id max_age = record { configured = refl; queued = λ p e. cc }

tick-queued :
    (now : ℕ) (path : FramePath) (b : ActionPathBridge)
    → (tick now b).0 ≡ (some path, false)
    → b.pending ≡ some path
unfolding tick
tick-queued now path b e = ground arith

tick-not_late :
    (now t max_age : ℕ) (path : FramePath) (b : ActionPathBridge)
    → (tick now b).0 ≡ (some path, false)
    → b.last_rx ≡ some t
    → b.stopped ≡ false
    → b.max_age ≡ max_age
    → now ≤ t + max_age
unfolding tick
tick-not_late now t max_age path b e rx running m = ground arith

-- After any calls on a new bridge, a path that the timer publishes other than as a time-out is the
-- queued one, and no more than `max_age` has passed since the last receipt.
pub tick_fresh :
    (frame_id : String) (max_age : ℕ) (calls : List Call) (now : ℕ) (path : FramePath)
    → (tick now (run calls (init frame_id max_age))).0 ≡ (some path, false)
    → (t : ℕ) × ((run calls (init frame_id max_age)).last_rx ≡ some t)
      × ((run calls (init frame_id max_age)).pending ≡ some path)
      × (now ≤ t + max_age)
tick_fresh frame_id max_age calls now path h =
    let b = run calls (init frame_id max_age) in
    let sound = run-IsSound max_age calls (init frame_id max_age) (init-IsSound frame_id max_age) in
    let waiting = tick-queued now path b h in
    let (t, rx, running) = sound.queued path waiting in
    (t, rx, waiting, tick-not_late now t max_age path b h rx running sound.configured)
