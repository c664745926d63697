-- ===== src/Bench/Navida/Callbacks.antt =====
-- bench/src/bench/live_navida.py: the subscriptions' callbacks and the stop service.
use rvln.Prelude.{
  ℕ, ◌+◌, ◌-◌, ◌*◌, Bool, true, false, not, ◌&&◌, ◌||◌, ◌==◌, String, Option, none, some, is_some,
  List, [], ltb, leb, str_eq, if◌then◌else◌,
}
use rvln.Float.{Float, Arith, zero_f, one_f, lt, abs, is_finite}
use rvln.Float.Literals.{lit_0_005, lit_0_01, lit_2, lit_e9}
use rvln.Edge.Messages.{Mode, GoalSpec, Observation}
use rvln.Bench.Step.{Pose, angle_delta, cancel, fail}
use rvln.Bench.Step.Observing.{observe}
use rvln.Bench.Navida.{NavidaStepBridge, Output, PowerAnswer, ready, is_verify, stop_power}

-- `text != self.goal`
unfoldable pub same_text : Option String → Option String → Bool
same_text none none = true
same_text none (some t) = false
same_text (some s) none = false
same_text (some s) (some t) = str_eq s t

-- `msg.text if msg.mode == GoalSpec.MODE_TEXT and msg.text else None`
unfoldable pub text_of : GoalSpec → Option String
text_of g = elim g.mode [
  | Mode.text ↦ if str_eq g.goal_text "" then none else some g.goal_text
  | _ ↦ none
]

-- The odometry message: position, orientation, turn rate and stamp.
pub record Odometry : Type 0 where
  pub px : Float
  pub py : Float
  pub qx : Float
  pub qy : Float
  pub qz : Float
  pub qw : Float
  pub yaw_rate : Float
  pub sec : ℕ
  pub nanosec : ℕ

abbrev pub stamp_of : Odometry → ℕ
stamp_of msg = msg.sec * 1000000000 + msg.nanosec

abbrev all_finite : Odometry → Bool
all_finite msg =
    is_finite msg.px
    && (is_finite msg.py
        && (is_finite msg.qx
            && (is_finite msg.qy
                && (is_finite msg.qz && (is_finite msg.qw && is_finite msg.yaw_rate)))))

-- `sum(v * v for v in values[2:6])`, added from the left
unfoldable pub norm_squared : Arith → Odometry → Float
norm_squared m msg =
    m.add
      (m.add (m.add (m.add zero_f (m.mul msg.qx msg.qx)) (m.mul msg.qy msg.qy))
        (m.mul msg.qz msg.qz))
      (m.mul msg.qw msg.qw)

unfoldable pub is_invalid : Arith → Odometry → ℕ → Bool
unfolding norm_squared
is_invalid m msg now_ns =
    stamp_of msg == 0
    || (ltb (stamp_of msg + 300000000) now_ns
        || (ltb now_ns (stamp_of msg)
            || (not (all_finite msg) || lt lit_0_01 (abs (m.sub (norm_squared m msg) one_f)))))

unfoldable pub pose_of : Arith → Odometry → Pose
pose_of m msg = record {
  x = msg.px;
  y = msg.py;
  yaw =
      m.atan2 (m.mul lit_2 (m.add (m.mul msg.qw msg.qz) (m.mul msg.qx msg.qy)))
        (m.sub one_f (m.mul lit_2 (m.add (m.mul msg.qy msg.qy) (m.mul msg.qz msg.qz))));
  yaw_rate = msg.yaw_rate;
}

-- The robot moved between the last two poses since the motor was enabled, or there is only one.
unfoldable pub has_moved : Arith → Pose → ℕ → NavidaStepBridge → Bool
has_moved m pose stamp b = elim b.power_pose [
  | none ↦ true
  | some previous ↦
      let dt = m.div (m.of_ℕ (stamp - b.power_stamp)) lit_e9 in
      lt lit_0_005 (m.div (m.hypot (m.sub pose.x previous.x) (m.sub pose.y previous.y)) dt)
      || lt lit_0_01 (m.div (abs (angle_delta m pose.yaw previous.yaw)) dt)
]

-- The motor is ready; without an action, this is a barrier for images.
unfoldable pub become_ready : ℕ → NavidaStepBridge → NavidaStepBridge
become_ready now_ns b = record b {
  power_state = ready;
  cycle = if is_some b.cycle.action then b.cycle else record b.cycle { floor_ns = now_ns };
}

-- The standstill that is watched after the motor is enabled.
unfoldable pub watch_power : Arith → Pose → ℕ → ℕ → NavidaStepBridge → NavidaStepBridge
unfolding has_moved become_ready
watch_power m pose stamp now_ns b =
    let seen : NavidaStepBridge = record b { power_pose = b.cycle.pose; power_stamp = stamp } in
    if not (is_verify b.power_state && ltb b.power_stamp stamp)
    then b
    else if has_moved m pose stamp b
    then record seen { power_stable = stamp }
    else if leb (b.power_stable + 200000000) stamp
    then become_ready now_ns seen
    else seen

module _ (m : Arith) where
  unfoldable pub set_goal :
      Option String
      → Bool
      → PowerAnswer
      → Float
      → ℕ
      → NavidaStepBridge
      → List Output × NavidaStepBridge
  unfolding same_text
  set_goal text restart answer now now_ns b =
      if restart || not (same_text text b.goal)
      then stop_power m answer now now_ns (record b {
        goal = text;
        latest = none;
        queue = [];
        cycle = cancel (b.cycle.stopped || not (is_some text)) now_ns now b.cycle;
      })
      else ([], b)

  unfoldable pub on_goal :
      GoalSpec → PowerAnswer → Float → ℕ → NavidaStepBridge → List Output × NavidaStepBridge
  unfolding set_goal text_of
  on_goal g answer now now_ns b = set_goal (text_of g) true answer now now_ns b

  unfoldable pub on_observation :
      Observation → PowerAnswer → Float → ℕ → NavidaStepBridge → List Output × NavidaStepBridge
  unfolding set_goal text_of
  on_observation msg answer now now_ns b =
      let (out, b') = set_goal (text_of msg.goal) false answer now now_ns b in
      (out, record b' { latest = some msg })

  unfoldable pub on_forced_stop :
      Bool → PowerAnswer → Float → ℕ → NavidaStepBridge → List Output × NavidaStepBridge
  on_forced_stop request answer now now_ns b =
      stop_power m answer now now_ns
        (record b { cycle = cancel request now_ns now b.cycle; queue = [] })

  unfoldable pub on_odom :
      Odometry → PowerAnswer → Float → ℕ → NavidaStepBridge → List Output × NavidaStepBridge
  on_odom msg answer now now_ns b =
      let pose = pose_of m msg in
      let stamp = stamp_of msg in
      if is_invalid m msg now_ns
      then stop_power m answer now now_ns
          (record b { cycle = fail "invalid odometry" now now_ns b.cycle })
      else (
        [],
        watch_power m pose stamp now_ns
            (record b { cycle = observe m pose stamp now now_ns b.cycle }),
      )
