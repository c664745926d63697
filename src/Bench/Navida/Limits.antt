-- ===== src/Bench/Navida/Limits.antt =====
-- bench/src/bench/live_navida.py: no callback changes the speed limits.
use rvln.Prelude.{
  ℕ, ◌≡◌, refl, Bool, String, Option, none, List, [], ◌∷◌, arith, true, false, not, ◌||◌, is_some,
  Option-cases, inl, inr,
}
use rvln.Float.{Float, Arith}
use rvln.Bench.Step.{
  Pose, Action, Request, StepCycle, begin_settling, cancel, confirm_motor_disabled, fail, start,
  accept, request,
}
use rvln.Bench.Step.Observing.{observe, track, settle, confirm_stop}
use rvln.Bench.Step.Commanding.{command, act_if, act, idle, move, turn}
use rvln.Bench.Navida.{
  NavidaStepBridge, PowerAnswer, power_failed, power_done, power_answered, power_verified,
  power_call, power_rest, power_tick, hold_power, stop_power, is_ready,
}
use rvln.Bench.Navida.Callbacks.{
  Odometry, set_goal, on_goal, on_observation, on_odom, on_forced_stop, watch_power, become_ready,
  pose_of, stamp_of, text_of,
}
use rvln.Bench.Navida.Ticking.{
  Outcome, unfinished, answered, failed, finish_request, request_done, request_failed, reply_taken,
  prepare, drive_on, note_fault, start_queued, submit, ask_with, ask, next_action, tick,
}
use rvln.Bench.Navida.Events.{
  Event, goal_event, observation_event, odom_event, stop_event, tick_event, handle, run,
}

-- The same limits.
abbrev pub Same : StepCycle → StepCycle → Type 0
Same c c' = (c'.max_v ≡ c.max_v) × (c'.max_w ≡ c.max_w)

module _ (m : Arith) where
  start-Same :
      (action : Action) (now : Float) (now_ns : ℕ) (c : StepCycle)
      → Same c (start m action now now_ns c).1
  unfolding start begin_settling
  start-Same action now now_ns c = ground arith

  accept-Same :
      (r : Request) (action : Action) (now : Float) (now_ns : ℕ) (c : StepCycle)
      → Same c (accept m r action now now_ns c).1
  unfolding accept fail cancel begin_settling start
  accept-Same r action now now_ns c = ground arith

  observe-Same :
      (pose : Pose) (stamp : ℕ) (now : Float) (now_ns : ℕ) (c : StepCycle)
      → Same c (observe m pose stamp now now_ns c)
  unfolding observe settle confirm_stop track
  observe-Same pose stamp now now_ns c = ground arith

  command-Same :
      (now : Float) (now_ns : ℕ) (enabled : Bool) (c : StepCycle)
      → Same c (command m now now_ns enabled c).1
  unfolding command act_if act idle move turn fail cancel begin_settling
  command-Same now now_ns enabled c = ground arith

  pub power_tick-Same :
      (answer : PowerAnswer) (now : Float) (now_ns : ℕ) (b : NavidaStepBridge)
      → Same b.cycle (power_tick m answer now now_ns b).1.cycle
  unfolding power_tick power_answered power_rest power_failed power_done power_verified power_call
      fail cancel confirm_motor_disabled begin_settling
  power_tick-Same answer now now_ns b = ground arith

  pub stop_power-Same :
      (answer : PowerAnswer) (now : Float) (now_ns : ℕ) (b : NavidaStepBridge)
      → Same b.cycle (stop_power m answer now now_ns b).1.cycle
  unfolding stop_power
  stop_power-Same answer now now_ns b =
      let held : (hold_power b).cycle ≡ b.cycle = unfold hold_power in ground arith in
      ground (arith, held, power_tick-Same answer now now_ns (hold_power b))

  set_goal-Same :
      (text : Option String) (restart : Bool) (answer : PowerAnswer) (now : Float) (now_ns : ℕ)
      (b : NavidaStepBridge)
      → Same b.cycle (set_goal m text restart answer now now_ns b).1.cycle
  unfolding set_goal
  set_goal-Same text restart answer now now_ns b =
      let fresh : StepCycle = cancel (b.cycle.stopped || not (is_some text)) now_ns now b.cycle in
      let kept : Same b.cycle fresh = unfold cancel begin_settling in (refl, refl) in
      ground (
        arith,
        kept,
        stop_power-Same answer now now_ns
            (record b { goal = text; latest = none; queue = []; cycle = fresh }),
      )

  watch_power-Same :
      (pose : Pose) (stamp now_ns : ℕ) (b : NavidaStepBridge)
      → Same b.cycle (watch_power m pose stamp now_ns b).cycle
  unfolding watch_power become_ready
  watch_power-Same pose stamp now_ns b = ground arith

  on_odom-Same :
      (msg : Odometry) (answer : PowerAnswer) (now : Float) (now_ns : ℕ) (b : NavidaStepBridge)
      → Same b.cycle (on_odom m msg answer now now_ns b).1.cycle
  unfolding on_odom
  on_odom-Same msg answer now now_ns b =
      let dead : StepCycle = fail "invalid odometry" now now_ns b.cycle in
      let kept : Same b.cycle dead = unfold fail cancel begin_settling in (refl, refl) in
      let pose = pose_of m msg in
      let seen = observe m pose (stamp_of msg) now now_ns b.cycle in
      ground (
        arith,
        kept,
        stop_power-Same answer now now_ns (record b { cycle = dead }),
        observe-Same pose (stamp_of msg) now now_ns b.cycle,
        watch_power-Same pose (stamp_of msg) now_ns (record b { cycle = seen }),
      )

  request_failed-Same :
      (reason : String) (token : Request) (now : Float) (now_ns : ℕ) (b : NavidaStepBridge)
      → Same b.cycle (request_failed m reason token now now_ns b).cycle
  unfolding request_failed fail cancel begin_settling
  request_failed-Same reason token now now_ns b = ground arith

  request_done-Same :
      (outcome : Outcome) (token : Request) (now : Float) (now_ns : ℕ) (b : NavidaStepBridge)
      → Same b.cycle (request_done m outcome token now now_ns b).cycle
  unfolding request_done reply_taken
  request_done-Same unfinished token now now_ns b = (refl, refl)
  request_done-Same (failed reason) token now now_ns b =
      request_failed-Same reason token now now_ns b
  request_done-Same (answered reply) token now now_ns b = ground (
    arith,
    accept-Same token reply.action now now_ns b.cycle,
    request_failed-Same "reply frame ID mismatch" token now now_ns b,
  )

  finish_request-Same :
      (outcome : Outcome) (now : Float) (now_ns : ℕ) (b : NavidaStepBridge)
      → Same b.cycle (finish_request m outcome now now_ns b).cycle
  unfolding finish_request
  finish_request-Same outcome now now_ns b = elim (Option-cases b.request_token) [
    | inl missing ↦ ground (arith, missing)
    | inr (token, e) ↦ ground (
      arith,
      e,
      request_done-Same outcome token now now_ns
          (record b { future = false; request_token = none }),
    )
  ]

  pub prepare-Same :
      (answer : PowerAnswer) (outcome : Outcome) (now : Float) (now_ns : ℕ) (b : NavidaStepBridge)
      → Same b.cycle (prepare m answer outcome now now_ns b).1.cycle
  unfolding prepare
  prepare-Same answer outcome now now_ns b =
      let powered = (power_tick m answer now now_ns b).1 in
      ground
        (arith, power_tick-Same answer now now_ns b, finish_request-Same outcome now now_ns powered)

  drive_on-Same :
      (after : PowerAnswer) (now : Float) (now_ns : ℕ) (b : NavidaStepBridge)
      → Same b.cycle (drive_on m after now now_ns b).1.cycle
  unfolding drive_on
  drive_on-Same after now now_ns b =
      let moved = (command m now now_ns (is_ready b.power_state) b.cycle).1 in
      ground (
        arith,
        command-Same now now_ns (is_ready b.power_state) b.cycle,
        stop_power-Same after now now_ns (record b { cycle = moved }),
      )

  start_queued-Same :
      (now : Float) (now_ns : ℕ) (b : NavidaStepBridge)
      → Same b.cycle (start_queued m now now_ns b).1.cycle
  unfolding start_queued start begin_settling
  start_queued-Same now now_ns b = ground arith

  ask-Same :
      (now : Float) (now_ns : ℕ) (b : NavidaStepBridge) → Same b.cycle (ask m now now_ns b).1.cycle
  unfolding ask ask_with request submit
  ask-Same now now_ns b = ground arith

  tick-Same :
      (answer : PowerAnswer) (outcome : Outcome) (after : PowerAnswer) (now : Float) (now_ns : ℕ)
      (b : NavidaStepBridge)
      → Same b.cycle (tick m answer outcome after now now_ns b).1.cycle
  unfolding tick next_action note_fault
  tick-Same answer outcome after now now_ns b =
      let b1 = (prepare m answer outcome now now_ns b).1 in
      let b2 = note_fault m (drive_on m after now now_ns b1).1 in
      let b3 = (start_queued m now now_ns b2).1 in
      ground (
        arith,
        prepare-Same answer outcome now now_ns b,
        drive_on-Same after now now_ns b1,
        start_queued-Same now now_ns b2,
        ask-Same now now_ns b3,
      )

  pub handle-Same : (event : Event) (b : NavidaStepBridge) → Same b.cycle (handle m event b).1.cycle
  unfolding handle on_goal on_observation on_forced_stop
  handle-Same (goal_event g answer now now_ns) b =
      set_goal-Same (text_of g) true answer now now_ns b
  handle-Same (observation_event msg answer now now_ns) b =
      set_goal-Same (text_of msg.goal) false answer now now_ns b
  handle-Same (odom_event msg answer now now_ns) b = on_odom-Same msg answer now now_ns b
  handle-Same (stop_event request answer now now_ns) b =
      let fresh : StepCycle = cancel request now_ns now b.cycle in
      let kept : Same b.cycle fresh = unfold cancel begin_settling in (refl, refl) in
      ground
        (arith, kept, stop_power-Same answer now now_ns (record b { cycle = fresh; queue = [] }))
  handle-Same (tick_event answer outcome after now now_ns) b =
      tick-Same answer outcome after now now_ns b

  pub run-Same : (events : List Event) (b : NavidaStepBridge) → Same b.cycle (run m events b).cycle
  unfolding run
  run-Same [] b = (refl, refl)
  run-Same (event ∷ events) b =
      ground (arith, handle-Same event b, run-Same events (handle m event b).1)
