-- ===== src/Bench/Navida/Shutdown.antt =====
-- bench/src/bench/live_navida.py, `destroy_node`: the shutdown, while the ROS context is alive. The
-- worker's shutdown is left out.
pub mod Halted
pub mod Standing
use rvln.Prelude.{ℕ, Bool, true, false, not, Option, none, some, List, [], ◌∷◌, ◌++◌, if◌then◌else◌}
use rvln.Float.{Float, Arith}
use rvln.Bench.Step.{cancel}
use rvln.Bench.Navida.{NavidaStepBridge, Output, PowerAnswer, is_ready, power_tick, stop_power}
use rvln.Bench.Navida.Events.{Event, handle}

-- One round of the loop: the callback that `spin_once` runs, if one is due, and the power's answer.
pub record Round : Type 0 where
  pub event : Option Event
  pub answer : PowerAnswer
  pub now : Float
  pub now_ns : ℕ

module _ (m : Arith) where
  unfoldable pub spin_once : Option Event → NavidaStepBridge → List Output × NavidaStepBridge
  spin_once none b = ([], b)
  spin_once (some event) b = handle m event b

  -- The rounds before the deadline, until the motor is ready.
  unfoldable pub power_rounds : List Round → NavidaStepBridge → List Output × NavidaStepBridge
  power_rounds [] b = ([], b)
  power_rounds (r ∷ rest) b = elim (is_ready b.power_state) [
    | true ↦ ([], b)
    | false ↦
        let (spun, b1) = spin_once r.event b in
        let (powered, b2) = power_tick m r.answer r.now r.now_ns b1 in
        let (later, b3) = power_rounds rest b2 in (spun ++ (powered ++ later), b3)
  ]

  -- The outputs, the bridge, and whether the stop is unconfirmed.
  unfoldable pub destroy_node :
      PowerAnswer
      → Float
      → ℕ
      → List Round
      → NavidaStepBridge
      → List Output × NavidaStepBridge × Bool
  destroy_node answer now now_ns rounds b =
      let cancelled : NavidaStepBridge = record b { cycle = cancel true now_ns now b.cycle } in
      let (out, b1) = stop_power m answer now now_ns cancelled in
      let (later, b2) = power_rounds rounds b1 in (out ++ later, b2, not (is_ready b2.power_state))
