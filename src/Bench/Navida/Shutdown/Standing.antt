-- ===== src/Bench/Navida/Shutdown/Standing.antt =====
-- bench/src/bench/live_navida.py: nothing but zero is published during the shutdown.
use rvln.Prelude.{
  ℕ, ◌≡◌, refl, sym, subst, true, Option, none, some, List, [], ◌∷◌, ◌++◌, All, All-append, All-imp,
  arith, Bool-cases, inl, inr,
}
use rvln.Float.{Float, Arith}
use rvln.Bench.Step.{cancel, begin_settling, request}
use rvln.Bench.Step.Commanding.Bounds.{IsUsable}
use rvln.Bench.Navida.{
  NavidaStepBridge, Output, twist, power_request, infer, PowerAnswer, is_ready, power_tick,
  stop_power,
}
use rvln.Bench.Navida.Ticking.{prepare}
use rvln.Bench.Navida.Events.{
  Event, goal_event, observation_event, odom_event, stop_event, tick_event, handle,
}
use rvln.Bench.Navida.Limits.{Same, handle-Same, power_tick-Same, stop_power-Same}
use rvln.Bench.Navida.Safety.{CarefulAt, handle-Careful, usable}
use rvln.Bench.Navida.Safety.Standing.{Still, power_tick-Still, stop_power-Still}
use rvln.Bench.Navida.Shutdown.{Round, spin_once, power_rounds, destroy_node}
use rvln.Bench.Navida.Shutdown.Halted.{
  is_quiet, Halted, power_tick-Halted, stop_power-Halted, prepare-Halted, spin_once-Halted,
}

abbrev pub NoResume : List Round → Type 0
NoResume [] = Unit
NoResume (r ∷ rest) = (is_quiet r.event ≡ true) × NoResume rest

module _ (m : Arith) where
  -- A stopped cycle allows nothing but zero.
  careful-Still :
      (now : Float) (b : NavidaStepBridge)
      → Halted m b
      → (o : Output) → CarefulAt m now b o
      → Still o
  careful-Still now b h (twist cmd) (limited, inl stands) = stands
  careful-Still now b h (twist cmd) (limited, inr allowed) = ground (arith, allowed.running)
  careful-Still now b h (power_request enable) c = tt
  careful-Still now b h (infer f goal jpeg) c = tt

  spin_once-Still :
      (event : Option Event) (b : NavidaStepBridge)
      → IsUsable b.cycle
      → Halted m b
      → All Still (spin_once m event b).0
  unfolding spin_once
  spin_once-Still none b u h = tt
  spin_once-Still (some (goal_event g answer now now_ns)) b u h =
      handle-Careful m (goal_event g answer now now_ns) b u
  spin_once-Still (some (observation_event msg answer now now_ns)) b u h =
      handle-Careful m (observation_event msg answer now now_ns) b u
  spin_once-Still (some (odom_event msg answer now now_ns)) b u h =
      handle-Careful m (odom_event msg answer now now_ns) b u
  spin_once-Still (some (stop_event request answer now now_ns)) b u h =
      handle-Careful m (stop_event request answer now now_ns) b u
  spin_once-Still (some (tick_event answer outcome after now now_ns)) b u h =
      let b' = (prepare m answer outcome now now_ns b).1 in
      let out = (handle m (tick_event answer outcome after now now_ns) b).0 in
      All-imp (CarefulAt m now b') Still
        (careful-Still now b' (prepare-Halted m answer outcome now now_ns b h)) out
        (handle-Careful m (tick_event answer outcome after now now_ns) b u)

  spin_once-Same :
      (event : Option Event) (b : NavidaStepBridge) → Same b.cycle (spin_once m event b).1.cycle
  unfolding spin_once
  spin_once-Same none b = (refl, refl)
  spin_once-Same (some event) b = handle-Same m event b

  power_rounds-Still :
      (rounds : List Round) (b : NavidaStepBridge)
      → NoResume rounds
      → IsUsable b.cycle
      → Halted m b
      → All Still (power_rounds m rounds b).0
  unfolding power_rounds
  power_rounds-Still [] b q u h = tt
  power_rounds-Still (r ∷ rest) b (quiet, q) u h =
      let b1 = (spin_once m r.event b).1 in
      let b2 = (power_tick m r.answer r.now r.now_ns b1).1 in
      let u1 = usable m b.cycle b1.cycle (spin_once-Same r.event b) u in
      let u2 = usable m b1.cycle b2.cycle (power_tick-Same m r.answer r.now r.now_ns b1) u1 in
      let h2 =
        power_tick-Halted m r.answer r.now r.now_ns b1 (spin_once-Halted m r.event b quiet h) in
      let spun = (spin_once m r.event b).0 in
      let powered = (power_tick m r.answer r.now r.now_ns b1).0 in
      let later = (power_rounds m rest b2).0 in
      elim (Bool-cases (is_ready b.power_state)) [
        | inl ready ↦
            let ends : (power_rounds m (r ∷ rest) b).0 ≡ [] = simp (ready, power_rounds) in
            subst (All Still) (sym ends) tt
        | inr going ↦
            let goes : (power_rounds m (r ∷ rest) b).0 ≡ spun ++ (powered ++ later) =
              simp (going, power_rounds) in
            subst (All Still) (sym goes) (
              All-append Still spun (powered ++ later) (spin_once-Still r.event b u h) (
                All-append Still powered later (power_tick-Still m r.answer r.now r.now_ns b1)
                  (power_rounds-Still rest b2 q u2 h2)))
      ]

  kept_limits :
      (now : Float) (now_ns : ℕ) (b : NavidaStepBridge)
      → IsUsable b.cycle
      → IsUsable (cancel true now_ns now b.cycle)
  unfolding cancel begin_settling
  kept_limits now now_ns b u = record {
    v_sign = u.v_sign;
    w_sign = u.w_sign;
    w_number = u.w_number;
  }

  -- From any state with usable limits on: while the node is destroyed, every Twist that it publishes
  -- is zero, whatever callbacks run until the motor is ready or the deadline passes, but for a call
  -- of the stop service that resumes.
  pub destroy_node-Still :
      (answer : PowerAnswer) (now : Float) (now_ns : ℕ) (rounds : List Round) (b : NavidaStepBridge)
      → IsUsable b.cycle
      → NoResume rounds
      → All Still (destroy_node m answer now now_ns rounds b).0
  unfolding destroy_node
  destroy_node-Still answer now now_ns rounds b u q =
      let cancelled : NavidaStepBridge = record b { cycle = cancel true now_ns now b.cycle } in
      let halted : Halted m cancelled = unfold cancel begin_settling in refl in
      let b1 = (stop_power m answer now now_ns cancelled).1 in
      All-append Still (stop_power m answer now now_ns cancelled).0 (power_rounds m rounds b1).0
        (stop_power-Still m answer now now_ns cancelled)
        (power_rounds-Still rounds b1 q
          (usable m cancelled.cycle b1.cycle (stop_power-Same m answer now now_ns cancelled)
            (kept_limits now now_ns b u))
          (stop_power-Halted m answer now now_ns cancelled halted))
