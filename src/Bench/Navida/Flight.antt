-- ===== src/Bench/Navida/Flight.antt =====
-- bench/src/bench/live_navida.py: at most one inference is in flight, and it is the one that the
-- cycle waits for.
pub mod Rounds
use rvln.Prelude.{
  subst, sym, Result, raise, Bool-cases, ℕ, ◌≡◌, refl, Bool, true, false, not, ◌&&◌, ◌||◌, ◌==◌,
  String, Option, none, some, is_some, List, [], ◌∷◌, arith, Option-cases, inl, inr, ok, ◌⊎◌,
}
use rvln.Float.{Float, Arith}
use rvln.Edge.Messages.{Observation}
use rvln.Bench.Step as Step
use rvln.Bench.Step.{
  Pose, Action, Request, StepCycle, begin_settling, cancel, confirm_motor_disabled, fail, start,
  accept, is_pending, request, can_request,
}
use rvln.Bench.Step.Observing.{observe, track, settle, confirm_stop}
use rvln.Bench.Step.Commanding.{command, act_if, act, idle, move, turn}
use rvln.Bench.Step.Valid.{is_current}
use rvln.Bench.Navida.{
  init, NavidaStepBridge, PowerAnswer, power_failed, power_done, power_answered, power_verified,
  power_call, power_rest, power_tick, hold_power, stop_power, is_ready,
}
use rvln.Bench.Navida.Callbacks.{
  Odometry, set_goal, on_goal, on_observation, on_odom, on_forced_stop, watch_power, become_ready,
  pose_of, stamp_of, text_of,
}
use rvln.Bench.Navida.Ticking.{
  Outcome, unfinished, answered, failed, finish_request, request_done, request_failed, reply_taken,
  prepare, drive_on, note_fault, start_queued, submit, ask_with, ask, next_action, tick, capture_of,
  is_unfinished,
}
use rvln.Bench.Navida.Events.{
  Event, goal_event, observation_event, odom_event, stop_event, tick_event, handle, run,
}

-- The request that the cycle waits for is the token of the inference in flight.
abbrev pub is_tracked : Bool → Option Request → Option Request → Bool
is_tracked future token none = true
is_tracked future none (some r) = false
is_tracked future (some t) (some r) =
    future
    && (t.frame_id == r.frame_id && (t.generation == r.generation && t.capture_ns == r.capture_ns))

pub record IsCoherent (b : NavidaStepBridge) : Type 0 where
  pub paired : is_some b.request_token ≡ b.future
  pub tracked : is_tracked b.future b.request_token b.cycle.pending ≡ true
  pub current : is_current b.cycle ≡ true

-- What a call may do to the request that the cycle waits for: keep it or drop it.
abbrev pub Drops : StepCycle → StepCycle → Type 0
Drops c c' = (c'.pending ≡ none) ⊎ ((c'.pending ≡ c.pending) × (c'.generation ≡ c.generation))

module _ (m : Arith) where
  start-Drops :
      (action : Action) (now : Float) (now_ns : ℕ) (c : StepCycle)
      → ((start m action now now_ns c).1.pending ≡ c.pending)
        × ((start m action now now_ns c).1.generation ≡ c.generation)
  unfolding start begin_settling
  start-Drops action now now_ns c = ground arith

  observe-Drops :
      (pose : Pose) (stamp : ℕ) (now : Float) (now_ns : ℕ) (c : StepCycle)
      → ((observe m pose stamp now now_ns c).pending ≡ c.pending)
        × ((observe m pose stamp now now_ns c).generation ≡ c.generation)
  unfolding observe settle confirm_stop track
  observe-Drops pose stamp now now_ns c = ground arith

  pub command-Drops :
      (now : Float) (now_ns : ℕ) (enabled : Bool) (c : StepCycle)
      → Drops c (command m now now_ns enabled c).1
  unfolding command act_if act idle move turn fail cancel begin_settling
  command-Drops now now_ns enabled c = ground arith

  power_tick-Drops :
      (answer : PowerAnswer) (now : Float) (now_ns : ℕ) (b : NavidaStepBridge)
      → Drops b.cycle (power_tick m answer now now_ns b).1.cycle
  unfolding power_tick power_answered power_rest power_failed power_done power_verified power_call
      fail cancel confirm_motor_disabled begin_settling
  power_tick-Drops answer now now_ns b = ground arith

  power_tick-kept :
      (answer : PowerAnswer) (now : Float) (now_ns : ℕ) (b : NavidaStepBridge)
      → let b' = (power_tick m answer now now_ns b).1 in
        (b'.future ≡ b.future) × (b'.request_token ≡ b.request_token)
  unfolding power_tick power_answered power_rest power_failed power_done power_verified power_call
  power_tick-kept answer now now_ns b = ground arith

  -- Keeping or dropping the pending request keeps the coherence.
  pub Drops-IsCoherent :
      (b b' : NavidaStepBridge)
      → b'.future ≡ b.future
      → b'.request_token ≡ b.request_token
      → Drops b.cycle b'.cycle
      → IsCoherent b
      → IsCoherent b'
  Drops-IsCoherent b b' f t d h = ground arith

  pub power_tick-IsCoherent :
      (answer : PowerAnswer) (now : Float) (now_ns : ℕ) (b : NavidaStepBridge)
      → IsCoherent b
      → IsCoherent (power_tick m answer now now_ns b).1
  power_tick-IsCoherent answer now now_ns b h =
      let kept = power_tick-kept answer now now_ns b in
      Drops-IsCoherent b (power_tick m answer now now_ns b).1 kept.0 kept.1
        (power_tick-Drops answer now now_ns b) h

  pub stop_power-IsCoherent :
      (answer : PowerAnswer) (now : Float) (now_ns : ℕ) (b : NavidaStepBridge)
      → IsCoherent b
      → IsCoherent (stop_power m answer now now_ns b).1
  unfolding stop_power
  stop_power-IsCoherent answer now now_ns b h =
      power_tick-IsCoherent answer now now_ns (hold_power b) (unfold hold_power in ground arith)

  -- A cancelled or failed cycle waits for nothing.
  pub dropped-IsCoherent :
      (b b' : NavidaStepBridge)
      → b'.future ≡ b.future
      → b'.request_token ≡ b.request_token
      → b'.cycle.pending ≡ none
      → IsCoherent b
      → IsCoherent b'
  dropped-IsCoherent b b' f t d h = ground arith

  pub set_goal-IsCoherent :
      (text : Option String) (restart : Bool) (answer : PowerAnswer) (now : Float) (now_ns : ℕ)
      (b : NavidaStepBridge)
      → IsCoherent b
      → IsCoherent (set_goal m text restart answer now now_ns b).1
  unfolding set_goal
  set_goal-IsCoherent text restart answer now now_ns b h =
      let fresh : NavidaStepBridge = record b {
        goal = text;
        latest = none;
        queue = [];
        cycle = cancel (b.cycle.stopped || not (is_some text)) now_ns now b.cycle;
      } in
      let kept : IsCoherent fresh =
        dropped-IsCoherent b fresh refl refl (unfold cancel begin_settling in refl) h in
      ground (arith, stop_power-IsCoherent answer now now_ns fresh kept)

  watch_power-IsCoherent :
      (pose : Pose) (stamp now_ns : ℕ) (b : NavidaStepBridge)
      → IsCoherent b
      → IsCoherent (watch_power m pose stamp now_ns b)
  unfolding watch_power become_ready
  watch_power-IsCoherent pose stamp now_ns b h = ground arith

  pub on_odom-IsCoherent :
      (msg : Odometry) (answer : PowerAnswer) (now : Float) (now_ns : ℕ) (b : NavidaStepBridge)
      → IsCoherent b
      → IsCoherent (on_odom m msg answer now now_ns b).1
  unfolding on_odom
  on_odom-IsCoherent msg answer now now_ns b h =
      let dead : NavidaStepBridge = record b {
        cycle = fail "invalid odometry" now now_ns b.cycle;
      } in
      let seen : NavidaStepBridge = record b {
        cycle = observe m (pose_of m msg) (stamp_of msg) now now_ns b.cycle;
      } in
      let failed_kept : IsCoherent dead =
        dropped-IsCoherent b dead refl refl (unfold fail cancel begin_settling in refl) h in
      let seen_kept : IsCoherent seen =
        Drops-IsCoherent b seen refl refl
          (inr (observe-Drops (pose_of m msg) (stamp_of msg) now now_ns b.cycle)) h in
      ground (
        arith,
        stop_power-IsCoherent answer now now_ns dead failed_kept,
        watch_power-IsCoherent (pose_of m msg) (stamp_of msg) now_ns seen seen_kept,
      )
