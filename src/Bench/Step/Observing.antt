-- ===== src/Bench/Step/Observing.antt =====
-- bench/src/bench/navida_step.py, `StepCycle.observe`: odometry refreshes the watchdog and proves
-- that the robot has stopped. Stamps advance, so that `dt` is not zero.
use rvln.Prelude.{
  ℕ, ◌+◌, ◌-◌, Bool, false, not, ◌&&◌, ◌||◌, none, some, leb, if◌then◌else◌, is_some,
}
use rvln.Float.{Float, Arith, zero_f, one_f, lt, le, abs, copysign, min}
use rvln.Float.Literals.{lit_0_005, lit_0_01, lit_3, lit_e9, radians_5}
use rvln.Bench.Step.{Pose, StepCycle, max_ns, angle_delta}

-- Two poses `dt` seconds apart show a robot that stands still.
unfoldable pub is_stable : Arith → Pose → Pose → Float → Bool
is_stable m pose previous dt =
    le (m.div (m.hypot (m.sub pose.x previous.x) (m.sub pose.y previous.y)) dt) lit_0_005
    && le (m.div (abs (angle_delta m pose.yaw previous.yaw)) dt) lit_0_01

-- The turn stopped too far from its target.
unfoldable pub off_target : Arith → Float → Float → Bool
off_target m turn_target turn_progress =
    let sign = copysign one_f turn_target in
    let target = abs turn_target in
    let progress = m.mul sign turn_progress in
    lt (min radians_5 (m.div target lit_3)) (abs (m.sub target progress))

-- The stop is confirmed: turn on toward the target, or end the action.
unfoldable pub confirm_stop : Arith → ℕ → StepCycle → StepCycle
confirm_stop m now_ns c = elim c.turn_target [
  | none ↦ record c { action = none; settling = false; floor_ns = now_ns }
  | some target ↦
      if off_target m target c.turn_progress
      then record c {
        action = some (record { distance = zero_f; angle = target });
        settling = false;
      }
      else record c { turn_target = none; action = none; settling = false; floor_ns = now_ns }
]

-- The odometry's pose against the one before it, while the robot settles.
unfoldable pub settle : Arith → Pose → ℕ → ℕ → StepCycle → StepCycle
settle m pose stamp_ns now_ns c =
    let seen : StepCycle = record c { settle_pose = some pose; settle_stamp_ns = stamp_ns } in
    elim c.settle_pose [
      | none ↦ record seen { stable_since_ns = stamp_ns }
      | some previous ↦
          if not (is_stable m pose previous (m.div (m.of_ℕ (stamp_ns - c.settle_stamp_ns)) lit_e9))
          then record seen { stable_since_ns = stamp_ns }
          else if leb (c.stable_since_ns + 150000000) stamp_ns
          then confirm_stop m now_ns seen
          else seen
    ]

-- The watchdog and the turn's progress.
unfoldable pub track : Arith → Pose → ℕ → Float → StepCycle → StepCycle
track m pose stamp_ns now c = record c {
  yaw_rate = pose.yaw_rate;
  settle_at = if not (is_some c.pose) && c.settling then now else c.settle_at;
  turn_progress =
      if (is_some c.action || c.settling) && is_some c.origin
      then elim c.pose [
        | none ↦ c.turn_progress
        | some last ↦ m.add c.turn_progress (angle_delta m pose.yaw last.yaw)
      ]
      else c.turn_progress;
  pose = some pose;
  odom_ns = stamp_ns;
  odom_at = now;
}

unfoldable pub observe : Arith → Pose → ℕ → Float → ℕ → StepCycle → StepCycle
observe m pose stamp_ns now now_ns c =
    if leb stamp_ns c.odom_ns
    then c
    else if not c.settling || leb stamp_ns (max_ns c.stop_ns c.settle_not_before_ns)
    then track m pose stamp_ns now c
    else settle m pose stamp_ns now_ns (track m pose stamp_ns now c)
