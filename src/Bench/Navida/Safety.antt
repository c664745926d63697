-- ===== src/Bench/Navida/Safety.antt =====
-- bench/src/bench/live_navida.py: which velocities the bridge publishes, and when.
pub mod Standing
use rvln.Prelude.{
  ap, ◌∙◌, ℕ, ◌≡◌, refl, sym, subst, Bool, true, false, ◌&&◌, ◌||◌, not, String, Option, none,
  is_some, List, [], ◌++◌, All, All-append, All-imp, arith, Bool-cases, Option-cases, inl, inr,
  Result, ok, raise,
}
use rvln.Float.{Float, Arith, is_nan}
use rvln.Edge.Messages.{Observation}
use rvln.Bench.Step.{StepCycle, Request, cancel, fail, request}
use rvln.Bench.Step.Commanding.{standing, command}
use rvln.Bench.Step.Commanding.Bounds.{IsUsable, Limited, Safe, standing-Limited, command-Safe}
use rvln.Bench.Navida.{
  NavidaStepBridge, Output, twist, power_request, infer, PowerAnswer, waiting, accepted, rejected,
  broken, is_ready, is_stop, is_off, power_failed, power_answered, power_verified, power_call,
  power_rest, power_tick, hold_power, stop_power,
}
use rvln.Bench.Navida.Callbacks.{
  Odometry, set_goal, on_goal, on_observation, on_odom, on_forced_stop, text_of,
}
use rvln.Bench.Navida.Ticking.{
  Outcome, prepare, drive_on, note_fault, start_queued, submit, ask_with, ask, next_action, tick,
  is_powered, capture_of,
}
use rvln.Bench.Navida.Events.{
  Event, goal_event, observation_event, odom_event, stop_event, tick_event, handle, run,
}
use rvln.Bench.Navida.Limits.{Same, prepare-Same, run-Same}
use rvln.Bench.Navida.Safety.Standing.{
  Still, power_call-Still, power_answered-Still, power_tick-Still, stop_power-Still, set_goal-Still,
  on_odom-Still, submit-Still, ask-Still, next_action-Still,
}

-- A published Twist is within the limits, and is zero unless the cycle allows a motion and the
-- motor is ready.
abbrev pub CarefulAt : Arith → Float → NavidaStepBridge → Output → Type 0
CarefulAt m now b (twist cmd) =
    Limited b.cycle cmd × Safe m now (is_ready b.power_state) b.cycle cmd
CarefulAt m now b (power_request enable) = Unit
CarefulAt m now b (infer f goal jpeg) = Unit

-- The timer is careful at the state that the power's and the inference's outcomes lead to, and every
-- other callback publishes zero.
abbrev pub Careful : Arith → Event → NavidaStepBridge → Output → Type 0
Careful m (goal_event g answer now now_ns) b = Still
Careful m (observation_event msg answer now now_ns) b = Still
Careful m (odom_event msg answer now now_ns) b = Still
Careful m (stop_event request answer now now_ns) b = Still
Careful m (tick_event answer outcome after now now_ns) b =
    CarefulAt m now (prepare m answer outcome now now_ns b).1

module _ (m : Arith) where
  module _ (now : Float) (b : NavidaStepBridge) (u : IsUsable b.cycle) where
    careful-Still : (o : Output) → Still o → CarefulAt m now b o
    careful-Still (twist cmd) e =
        (subst (Limited b.cycle) (sym e) (standing-Limited m b.cycle u), inl e)
    careful-Still (power_request enable) e = tt
    careful-Still (infer f goal jpeg) e = tt

    careful : (out : List Output) → All Still out → All (CarefulAt m now b) out
    careful out h = All-imp Still (CarefulAt m now b) careful-Still out h

    drive_on-Careful :
        (after : PowerAnswer) (now_ns : ℕ)
        → All (CarefulAt m now b) (drive_on m after now now_ns b).0
    unfolding drive_on
    drive_on-Careful after now_ns =
        let r = command m now now_ns (is_ready b.power_state) b.cycle in
        let b' : NavidaStepBridge = record b { cycle = r.1 } in
        let safe = command-Safe m b.cycle u now now_ns (is_ready b.power_state) in
        elim (Bool-cases (r.1.settling && is_powered m b.power_state)) [
          | inl ends ↦
              rw (ends, drive_on)
                (
                  safe,
                  careful (stop_power m after now now_ns b').0
                      (stop_power-Still m after now now_ns b'),
                )
          | inr goes_on ↦ rw (goes_on, drive_on) (safe, tt)
        ]

  pub usable : (c c' : StepCycle) → Same c c' → IsUsable c → IsUsable c'
  usable c c' (v, w) u = record {
    v_sign = ap (λ (x : Float). x.sign) v ∙ u.v_sign;
    w_sign = ap (λ (x : Float). x.sign) w ∙ u.w_sign;
    w_number = ap is_nan w ∙ u.w_number;
  }

  pub tick-Careful :
      (answer : PowerAnswer) (outcome : Outcome) (after : PowerAnswer) (now : Float) (now_ns : ℕ)
      (b : NavidaStepBridge)
      → IsUsable b.cycle
      → All
          (CarefulAt m now (prepare m answer outcome now now_ns b).1)
          (tick m answer outcome after now now_ns b).0
  unfolding tick
  tick-Careful answer outcome after now now_ns b u =
      let b1 = (prepare m answer outcome now now_ns b).1 in
      let u1 = usable b.cycle b1.cycle (prepare-Same m answer outcome now now_ns b) u in
      let P = CarefulAt m now b1 in
      let powered = (prepare m answer outcome now now_ns b).0 in
      let driven = (drive_on m after now now_ns b1).0 in
      let b2 = note_fault m (drive_on m after now now_ns b1).1 in
      let asked = (next_action m now now_ns b2).0 in
      All-append P powered (driven ++ asked)
        (careful now b1 u1 powered (unfold prepare in power_tick-Still m answer now now_ns b))
        (All-append P driven asked (drive_on-Careful now b1 u1 after now_ns)
          (careful now b1 u1 asked (next_action-Still m now now_ns b2)))

  pub handle-Careful :
      (event : Event) (b : NavidaStepBridge)
      → IsUsable b.cycle
      → All (Careful m event b) (handle m event b).0
  unfolding handle on_goal on_observation on_forced_stop
  handle-Careful (goal_event g answer now now_ns) b u =
      set_goal-Still m (text_of g) true answer now now_ns b
  handle-Careful (observation_event msg answer now now_ns) b u =
      set_goal-Still m (text_of msg.goal) false answer now now_ns b
  handle-Careful (odom_event msg answer now now_ns) b u = on_odom-Still m msg answer now now_ns b
  handle-Careful (stop_event request answer now now_ns) b u =
      stop_power-Still m answer now now_ns
        (record b { cycle = cancel request now_ns now b.cycle; queue = [] })
  handle-Careful (tick_event answer outcome after now now_ns) b u =
      tick-Careful answer outcome after now now_ns b u

  -- After any callbacks, in any order and with any answers of the services, when the limits are
  -- numbers that are not negative: every Twist that the next callback publishes is zero if it is not
  -- the timer; and the timer's are within both limits and never backward, and zero unless the motor
  -- is ready, the cycle is not stopped, its odometry is fresh, its last stop is confirmed, and an
  -- action is under way within its time.
  pub handle-Careful_always :
      (events : List Event) (event : Event) (b : NavidaStepBridge)
      → IsUsable b.cycle
      → let b' = run m events b in All (Careful m event b') (handle m event b').0
  handle-Careful_always events event b u =
      let b' = run m events b in
      handle-Careful event b' (usable b.cycle b'.cycle (run-Same m events b) u)
