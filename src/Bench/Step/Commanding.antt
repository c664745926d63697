-- ===== src/Bench/Step/Commanding.antt =====
-- bench/src/bench/navida_step.py, `StepCycle.command`: the velocities of one round. The divisors
-- are literals and the limits, which the constructor keeps away from zero.
pub mod Bounds
use rvln.Prelude.{ℕ, Bool, true, false, not, ◌&&◌, ◌||◌, Option, none, some, if◌then◌else◌}
use rvln.Float.{Float, Arith, zero_f, lt, abs, neg, min, max}
use rvln.Float.Literals.{
  lit_0_015, lit_0_05, lit_0_08, lit_0_5, lit_0_65, lit_2, lit_3, lit_4, lit_8, radians_5,
}
use rvln.Bench.Step.{Pose, Action, StepCycle, begin_settling, fail, odom_stale}

abbrev pub standing : Float × Float
standing = (zero_f, zero_f)

-- The motion has run longer than three times its nominal duration and eight seconds.
unfoldable pub overdue : Arith → Float → Action → StepCycle → Bool
overdue m now action c =
    let duration = max (m.div action.distance c.max_v) (m.div (abs action.angle) c.max_w) in
    lt (m.add (m.mul lit_3 duration) lit_8) (m.sub now c.motion_at)

-- The speed toward the end of a straight motion, or none when it is close enough.
unfoldable pub drive : Arith → Pose → Pose → Action → StepCycle → Option Float
drive m pose origin action c =
    let progress =
      m.add (m.mul (m.sub pose.x origin.x) (m.cos origin.yaw))
        (m.mul (m.sub pose.y origin.y) (m.sin origin.yaw)) in
    let remaining = m.sub action.distance progress in
    if lt (min lit_0_05 (m.div action.distance lit_4)) remaining
    then some (min c.max_v (max lit_0_015 (m.mul lit_0_5 remaining)))
    else none

abbrev pub clip : Float → Float → Float
clip w x = max (neg w) (min w x)

-- The proportional and integral control of the turn rate: the integral and the rate.
unfoldable pub control : Arith → Float → Float → Action → StepCycle → Float × Float
control m now remaining action c =
    let held =
      if lt (m.mul remaining action.angle) zero_f && lt zero_f (m.mul c.turn_integral action.angle)
      then zero_f
      else c.turn_integral in
    let desired_rate = clip c.max_w (m.mul lit_2 (m.sub remaining (m.mul lit_0_65 c.yaw_rate))) in
    let error = m.sub desired_rate c.yaw_rate in
    let raw = m.add held (m.mul lit_0_5 error) in
    let integral =
      if lt (abs raw) c.max_w || lt (m.mul raw error) zero_f
      then clip c.max_w (m.add held (m.mul (m.mul lit_2 error) (m.sub now c.turn_control_at)))
      else held in
    (integral, clip c.max_w (m.add integral (m.mul lit_0_5 error)))

-- The turn rate, or none when the turn is close enough and slow enough.
unfoldable pub turn : Arith → Float → Action → StepCycle → Option (Float × StepCycle)
turn m now action c =
    let remaining = m.sub action.angle c.turn_progress in
    let off = lt (min radians_5 (m.div (abs action.angle) lit_3)) (abs remaining) in
    if off || lt lit_0_08 (abs c.yaw_rate)
    then (let (integral, angular) = control m now remaining action c in
        some (
          if off then angular else zero_f,
          record c {
            turn_integral = if off then integral else c.turn_integral;
            turn_control_at = now;
            turn_emitted = true;
          },
        ))
    else none

-- One round of a motion that is neither overdue nor settling.
unfoldable pub move :
    Arith → Float → ℕ → Pose → Pose → Action → StepCycle → (Float × Float) × StepCycle
move m now now_ns pose origin action c =
    if lt zero_f action.distance
    then elim (drive m pose origin action c) [
      | none ↦ (standing, begin_settling false now_ns now c)
      | some linear ↦ ((linear, zero_f), c)
    ]
    else elim (turn m now action c) [
      | none ↦ (standing, begin_settling false now_ns now c)
      | some turned ↦ ((zero_f, turned.0), turned.1)
    ]

-- A motion, if there is one: the time-out, the settling, the motor's permission, the motion.
unfoldable pub act :
    Arith → Float → ℕ → Bool → Pose → Pose → Action → StepCycle → (Float × Float) × StepCycle
act m now now_ns motion_enabled pose origin action c =
    if overdue m now action c
    then (standing, fail "motion timeout" now now_ns c)
    else if c.settling
    then (
      standing,
      if lt lit_2 (m.sub now c.settle_at) then fail "stop not confirmed" now now_ns c else c,
    )
    else if not motion_enabled
    then (standing, record c { turn_control_at = now })
    else move m now now_ns pose origin action c

-- No motion.
unfoldable pub idle : Arith → Float → ℕ → StepCycle → (Float × Float) × StepCycle
idle m now now_ns c = (
  standing,
  if c.settling && lt lit_2 (m.sub now c.settle_at)
      then fail "stop not confirmed" now now_ns c
      else c,
)

-- A motion needs an action and an origin.
unfoldable pub act_if : Arith → Float → ℕ → Bool → Pose → StepCycle → (Float × Float) × StepCycle
act_if m now now_ns motion_enabled pose c = elim c.action [
  | none ↦ idle m now now_ns c
  | some action ↦ elim c.origin [
    | none ↦ idle m now now_ns c
    | some origin ↦ act m now now_ns motion_enabled pose origin action c
  ]
]

unfoldable pub command : Arith → Float → ℕ → Bool → StepCycle → (Float × Float) × StepCycle
command m now now_ns motion_enabled c = if c.stopped then (standing, c) else elim c.pose [
  | none ↦ (standing, c)
  | some pose ↦
      if odom_stale m now c
      then (standing, fail "odometry stale" now now_ns c)
      else act_if m now now_ns motion_enabled pose c
]
