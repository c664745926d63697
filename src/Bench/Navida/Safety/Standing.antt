-- ===== src/Bench/Navida/Safety/Standing.antt =====
-- bench/src/bench/live_navida.py: all but the timer publish only zero.
use rvln.Prelude.{
  ℕ, ◌≡◌, refl, sym, subst, Bool, ◌&&◌, ◌||◌, not, String, Option, none, is_some, [], All,
  All-append, arith, Bool-cases, Option-cases, inl, inr, Result, ok, raise,
}
use rvln.Float.{Float, Arith}
use rvln.Edge.Messages.{Observation}
use rvln.Bench.Step.{StepCycle, Request, cancel, fail, request}
use rvln.Bench.Step.Commanding.{standing}
use rvln.Bench.Navida.{
  NavidaStepBridge, Output, twist, power_request, infer, PowerAnswer, waiting, accepted, rejected,
  broken, is_ready, is_stop, is_off, power_failed, power_answered, power_verified, power_call,
  power_rest, power_tick, hold_power, stop_power,
}
use rvln.Bench.Navida.Callbacks.{Odometry, set_goal, on_odom}
use rvln.Bench.Navida.Ticking.{start_queued, submit, ask_with, ask, next_action, capture_of}

-- A published Twist is zero.
abbrev pub Still : Output → Type 0
Still (twist cmd) = cmd ≡ standing
Still (power_request enable) = Unit
Still (infer f goal jpeg) = Unit

module _ (m : Arith) where
  pub power_call-Still : (now : Float) (b : NavidaStepBridge) → All Still (power_call now b).0
  unfolding power_call
  power_call-Still now b =
      elim (Bool-cases (is_stop b.power_state || (is_off b.power_state && not b.cycle.settling))) [
        | inl due ↦ rw (due, power_call) (refl, (tt, tt))
        | inr later ↦ rw (later, power_call) tt
      ]

  pub power_answered-Still :
      (answer : PowerAnswer) (now : Float) (now_ns : ℕ) (b : NavidaStepBridge)
      → All Still (power_answered answer now now_ns b).0
  unfolding power_answered power_failed
  power_answered-Still waiting now now_ns b = (refl, tt)
  power_answered-Still accepted now now_ns b = tt
  power_answered-Still rejected now now_ns b = (refl, tt)
  power_answered-Still (broken reason) now now_ns b = (refl, tt)

  pub power_tick-Still :
      (answer : PowerAnswer) (now : Float) (now_ns : ℕ) (b : NavidaStepBridge)
      → All Still (power_tick m answer now now_ns b).0
  unfolding power_tick power_rest
  power_tick-Still answer now now_ns b =
      let b' = (power_answered answer now now_ns b).1 in
      ground (
        arith,
        power_call-Still now (power_verified m now now_ns b),
        All-append Still (power_answered answer now now_ns b).0 (power_rest m now now_ns b').0
            (power_answered-Still answer now now_ns b)
            (power_call-Still now (power_verified m now now_ns b')),
      )

  pub stop_power-Still :
      (answer : PowerAnswer) (now : Float) (now_ns : ℕ) (b : NavidaStepBridge)
      → All Still (stop_power m answer now now_ns b).0
  unfolding stop_power
  stop_power-Still answer now now_ns b = (refl, power_tick-Still answer now now_ns (hold_power b))

  pub set_goal-Still :
      (text : Option String) (restart : Bool) (answer : PowerAnswer) (now : Float) (now_ns : ℕ)
      (b : NavidaStepBridge)
      → All Still (set_goal m text restart answer now now_ns b).0
  unfolding set_goal
  set_goal-Still text restart answer now now_ns b = ground (
    arith,
    stop_power-Still answer now now_ns (record b {
      goal = text;
      latest = none;
      queue = [];
      cycle = cancel (b.cycle.stopped || not (is_some text)) now_ns now b.cycle;
    }),
  )

  pub on_odom-Still :
      (msg : Odometry) (answer : PowerAnswer) (now : Float) (now_ns : ℕ) (b : NavidaStepBridge)
      → All Still (on_odom m msg answer now now_ns b).0
  unfolding on_odom
  on_odom-Still msg answer now now_ns b = ground (
    arith,
    stop_power-Still answer now now_ns
        (record b { cycle = fail "invalid odometry" now now_ns b.cycle }),
  )

  pub submit-Still :
      (obs : Observation) (goal : String) (r : Result Request × StepCycle) (b : NavidaStepBridge)
      → All Still (submit m obs goal r b).0
  unfolding submit
  submit-Still obs goal (ok token, cycle) b = (tt, tt)
  submit-Still obs goal (raise e, cycle) b = tt

  pub ask-Still :
      (now : Float) (now_ns : ℕ) (b : NavidaStepBridge) → All Still (ask m now now_ns b).0
  unfolding ask ask_with
  ask-Still now now_ns b = elim (Bool-cases (not (is_ready b.power_state) || b.future)) [
    | inl busy ↦ rw (busy, ask) tt
    | inr free ↦ elim (Option-cases b.latest) [
      | inl unseen ↦
          let e : (ask m now now_ns b).0 ≡ [] = simp (free, unseen, ask) in
          subst (All Still) (sym e) tt
      | inr (obs, seen) ↦ elim (Option-cases b.goal) [
        | inl aimless ↦
            let e : (ask m now now_ns b).0 ≡ [] = simp (free, seen, aimless, ask) in
            subst (All Still) (sym e) tt
        | inr (goal, aim) ↦
            let e : (ask m now now_ns b).0 ≡ (ask_with m obs goal now now_ns b).0 =
              simp (free, seen, aim, ask) in
            subst (All Still) (sym e) (asked obs goal)
      ]
    ]
  ]
    where
      asked : (obs : Observation) (goal : String) → All Still (ask_with m obs goal now now_ns b).0
      asked obs goal = ground (
        arith,
        submit-Still obs goal (request m obs.frame_id (capture_of m obs) now now_ns b.cycle) b,
      )

  pub next_action-Still :
      (now : Float) (now_ns : ℕ) (b : NavidaStepBridge) → All Still (next_action m now now_ns b).0
  unfolding next_action
  next_action-Still now now_ns b =
      ground (arith, ask-Still now now_ns (start_queued m now now_ns b).1)
