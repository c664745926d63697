-- ===== src/Bench/Navida/Events.antt =====
-- bench/src/bench/live_navida.py: the callbacks of the executor, in any order.
use rvln.Prelude.{ℕ, Bool, List, [], ◌∷◌}
use rvln.Float.{Float, Arith}
use rvln.Edge.Messages.{GoalSpec, Observation}
use rvln.Bench.Navida.{NavidaStepBridge, Output, PowerAnswer}
use rvln.Bench.Navida.Callbacks.{Odometry, on_goal, on_observation, on_odom, on_forced_stop}
use rvln.Bench.Navida.Ticking.{Outcome, tick}

pub data Event : Type 0 where
  goal_event : GoalSpec → PowerAnswer → Float → ℕ → Event
  observation_event : Observation → PowerAnswer → Float → ℕ → Event
  odom_event : Odometry → PowerAnswer → Float → ℕ → Event
  stop_event : Bool → PowerAnswer → Float → ℕ → Event
  tick_event : PowerAnswer → Outcome → PowerAnswer → Float → ℕ → Event

module _ (m : Arith) where
  unfoldable pub handle : Event → NavidaStepBridge → List Output × NavidaStepBridge
  handle (goal_event g answer now now_ns) b = on_goal m g answer now now_ns b
  handle (observation_event msg answer now now_ns) b = on_observation m msg answer now now_ns b
  handle (odom_event msg answer now now_ns) b = on_odom m msg answer now now_ns b
  handle (stop_event request answer now now_ns) b = on_forced_stop m request answer now now_ns b
  handle (tick_event answer outcome after now now_ns) b = tick m answer outcome after now now_ns b

  -- The bridge after a run.
  unfoldable pub run : List Event → NavidaStepBridge → NavidaStepBridge
  unfolding handle
  run [] b = b
  run (event ∷ events) b = run events (handle event b).1
