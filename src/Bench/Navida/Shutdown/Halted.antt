-- ===== src/Bench/Navida/Shutdown/Halted.antt =====
-- bench/src/bench/live_navida.py: a callback that does not resume leaves a stopped cycle stopped.
use rvln.Prelude.{
  ℕ, ◌≡◌, refl, ap, ◌∙◌, Bool, true, false, not, ◌||◌, String, Option, none, some, is_some, [],
  arith, Option-cases, inl, inr,
}
use rvln.Float.{Float, Arith}
use rvln.Bench.Step.{
  Pose, Action, Request, StepCycle, cancel, fail, begin_settling, confirm_motor_disabled, accept,
  start, request,
}
use rvln.Bench.Step.Observing.{observe, track, settle, confirm_stop}
use rvln.Bench.Step.Commanding.{command}
use rvln.Bench.Navida.{
  NavidaStepBridge, PowerAnswer, is_ready, power_failed, power_done, power_answered, power_verified,
  power_call, power_rest, power_tick, hold_power, stop_power,
}
use rvln.Bench.Navida.Callbacks.{
  Odometry, set_goal, on_goal, on_observation, on_odom, on_forced_stop, watch_power, become_ready,
  pose_of, stamp_of, text_of,
}
use rvln.Bench.Navida.Ticking.{
  Outcome, unfinished, answered, failed, finish_request, request_done, request_failed, reply_taken,
  prepare, drive_on, note_fault, start_queued, submit, ask_with, ask, next_action, tick,
}
use rvln.Bench.Navida.Events.{
  Event, goal_event, observation_event, odom_event, stop_event, tick_event, handle,
}
use rvln.Bench.Navida.Shutdown.{spin_once}

-- The event is not the service's call that resumes.
unfoldable pub is_quiet : Option Event → Bool
is_quiet (some (stop_event request answer now now_ns)) = request
is_quiet e = true

module _ (m : Arith) where
  abbrev pub Halted : NavidaStepBridge → Type 0
  Halted b = b.cycle.stopped ≡ true

  pub power_tick-Halted :
      (answer : PowerAnswer) (now : Float) (now_ns : ℕ) (b : NavidaStepBridge)
      → Halted b
      → Halted (power_tick m answer now now_ns b).1
  unfolding power_tick power_answered power_rest power_failed power_done power_verified power_call
      fail cancel confirm_motor_disabled begin_settling
  power_tick-Halted answer now now_ns b h = ground arith

  pub stop_power-Halted :
      (answer : PowerAnswer) (now : Float) (now_ns : ℕ) (b : NavidaStepBridge)
      → Halted b
      → Halted (stop_power m answer now now_ns b).1
  unfolding stop_power
  stop_power-Halted answer now now_ns b h =
      power_tick-Halted answer now now_ns (hold_power b) (unfold hold_power in ground arith)

  set_goal-Halted :
      (text : Option String) (restart : Bool) (answer : PowerAnswer) (now : Float) (now_ns : ℕ)
      (b : NavidaStepBridge)
      → Halted b
      → Halted (set_goal m text restart answer now now_ns b).1
  unfolding set_goal
  set_goal-Halted text restart answer now now_ns b h =
      let fresh : NavidaStepBridge = record b {
        goal = text;
        latest = none;
        queue = [];
        cycle = cancel (b.cycle.stopped || not (is_some text)) now_ns now b.cycle;
      } in
      let kept : Halted fresh = unfold cancel begin_settling in ground arith in
      ground (arith, stop_power-Halted answer now now_ns fresh kept)

  observe-stopped :
      (pose : Pose) (stamp : ℕ) (now : Float) (now_ns : ℕ) (c : StepCycle)
      → (observe m pose stamp now now_ns c).stopped ≡ c.stopped
  unfolding observe settle confirm_stop track
  observe-stopped pose stamp now now_ns c = ground arith

  watch_power-stopped :
      (pose : Pose) (stamp now_ns : ℕ) (b : NavidaStepBridge)
      → (watch_power m pose stamp now_ns b).cycle.stopped ≡ b.cycle.stopped
  unfolding watch_power become_ready
  watch_power-stopped pose stamp now_ns b = ground arith

  on_odom-Halted :
      (msg : Odometry) (answer : PowerAnswer) (now : Float) (now_ns : ℕ) (b : NavidaStepBridge)
      → Halted b
      → Halted (on_odom m msg answer now now_ns b).1
  unfolding on_odom
  on_odom-Halted msg answer now now_ns b h =
      let dead : NavidaStepBridge = record b {
        cycle = fail "invalid odometry" now now_ns b.cycle;
      } in
      let seen : NavidaStepBridge = record b {
        cycle = observe m (pose_of m msg) (stamp_of msg) now now_ns b.cycle;
      } in
      let dead_halted : Halted dead = unfold fail cancel begin_settling in refl in
      ground (
        arith,
        stop_power-Halted answer now now_ns dead dead_halted,
        watch_power-stopped (pose_of m msg) (stamp_of msg) now_ns seen,
        observe-stopped (pose_of m msg) (stamp_of msg) now now_ns b.cycle,
      )

  accept-stopped :
      (r : Request) (a : Action) (now : Float) (now_ns : ℕ) (c : StepCycle)
      → c.stopped ≡ true
      → (accept m r a now now_ns c).1.stopped ≡ true
  unfolding accept start fail cancel begin_settling
  accept-stopped r a now now_ns c h = ground arith

  request_done-Halted :
      (outcome : Outcome) (token : Request) (now : Float) (now_ns : ℕ) (b : NavidaStepBridge)
      → Halted b
      → Halted (request_done m outcome token now now_ns b)
  unfolding request_done request_failed reply_taken fail cancel begin_settling
  request_done-Halted unfinished token now now_ns b h = h
  request_done-Halted (failed reason) token now now_ns b h = ground arith
  request_done-Halted (answered reply) token now now_ns b h =
      ground (arith, accept-stopped token reply.action now now_ns b.cycle h)

  pub prepare-Halted :
      (answer : PowerAnswer) (outcome : Outcome) (now : Float) (now_ns : ℕ) (b : NavidaStepBridge)
      → Halted b
      → Halted (prepare m answer outcome now now_ns b).1
  unfolding prepare finish_request
  prepare-Halted answer outcome now now_ns b h =
      let powered = (power_tick m answer now now_ns b).1 in
      let kept = power_tick-Halted answer now now_ns b h in
      elim (Option-cases powered.request_token) [
        | inl missing ↦ ground (arith, kept, missing)
        | inr (token, held) ↦ ground (
          arith,
          kept,
          held,
          request_done-Halted outcome token now now_ns
              (record powered { future = false; request_token = none }) kept,
        )
      ]

  command-halted :
      (now : Float) (now_ns : ℕ) (enabled : Bool) (c : StepCycle)
      → c.stopped ≡ true
      → (command m now now_ns enabled c).1 ≡ c
  unfolding command
  command-halted now now_ns enabled c h = ground (arith, h)

  drive_on-Halted :
      (after : PowerAnswer) (now : Float) (now_ns : ℕ) (b : NavidaStepBridge)
      → Halted b
      → Halted (drive_on m after now now_ns b).1
  unfolding drive_on
  drive_on-Halted after now now_ns b h =
      let moved : NavidaStepBridge = record b {
        cycle = (command m now now_ns (is_ready b.power_state) b.cycle).1;
      } in
      let kept : Halted moved =
        ap (λ (c : StepCycle). c.stopped)
          (command-halted now now_ns (is_ready b.power_state) b.cycle h)
        ∙ h in
      ground (arith, kept, stop_power-Halted after now now_ns moved kept)

  start_queued-Halted :
      (now : Float) (now_ns : ℕ) (b : NavidaStepBridge)
      → Halted b
      → Halted (start_queued m now now_ns b).1
  unfolding start_queued start begin_settling
  start_queued-Halted now now_ns b h = ground arith

  ask-Halted :
      (now : Float) (now_ns : ℕ) (b : NavidaStepBridge) → Halted b → Halted (ask m now now_ns b).1
  unfolding ask ask_with request submit
  ask-Halted now now_ns b h = ground arith

  tick-Halted :
      (answer : PowerAnswer) (outcome : Outcome) (after : PowerAnswer) (now : Float) (now_ns : ℕ)
      (b : NavidaStepBridge)
      → Halted b
      → Halted (tick m answer outcome after now now_ns b).1
  unfolding tick next_action
  tick-Halted answer outcome after now now_ns b h =
      let b1 = (prepare m answer outcome now now_ns b).1 in
      let b2 = (drive_on m after now now_ns b1).1 in
      let h2 = drive_on-Halted after now now_ns b1 (prepare-Halted answer outcome now now_ns b h) in
      let noted : Halted (note_fault m b2) = unfold note_fault in h2 in
      let b3 = (start_queued m now now_ns (note_fault m b2)).1 in
      let h3 = start_queued-Halted now now_ns (note_fault m b2) noted in
      ground (arith, h3, ask-Halted now now_ns b3 h3)

  pub spin_once-Halted :
      (event : Option Event) (b : NavidaStepBridge)
      → is_quiet event ≡ true
      → Halted b
      → Halted (spin_once m event b).1
  unfolding spin_once is_quiet handle on_goal on_observation on_forced_stop
  spin_once-Halted none b q h = h
  spin_once-Halted (some (goal_event g answer now now_ns)) b q h =
      set_goal-Halted (text_of g) true answer now now_ns b h
  spin_once-Halted (some (observation_event msg answer now now_ns)) b q h =
      set_goal-Halted (text_of msg.goal) false answer now now_ns b h
  spin_once-Halted (some (odom_event msg answer now now_ns)) b q h =
      on_odom-Halted msg answer now now_ns b h
  spin_once-Halted (some (stop_event request answer now now_ns)) b q h =
      stop_power-Halted answer now now_ns
        (record b { cycle = cancel request now_ns now b.cycle; queue = [] })
        (unfold cancel begin_settling in q)
  spin_once-Halted (some (tick_event answer outcome after now now_ns)) b q h =
      tick-Halted answer outcome after now now_ns b h
