-- ===== src/Bench/Step.antt =====
-- bench/src/bench/navida_step.py: `StepCycle`, one request, one motion and one confirmed stop. ROS
-- times are natural numbers of nanoseconds, the monotonic clock is a double. A time difference of
-- nanoseconds is written with a sum.
pub mod Observing
pub mod Commanding
pub mod Runs
pub mod Valid
pub mod Replies
pub mod Halting
use rvln.Prelude.{
  ℕ, ◌+◌, Bool, true, false, not, ◌&&◌, ◌||◌, String, Option, none, some, List, [], ◌∷◌, ltb, leb,
  ◌==◌, if◌then◌else◌, is_some, Result, ok, raise, value_error,
}
use rvln.Float.{Float, Arith, zero_f, one_f, lt, le, eq, abs, neg, copysign, is_finite}
use rvln.Float.Literals.{
  lit_e_6, lit_0_001, lit_0_01_less, lit_0_015, lit_0_3, lit_0_35, lit_0_75, radians_1_less,
  radians_45_more, minus_inf,
}

-- TURN_DRIVE_SPEED
abbrev pub turn_drive_speed : Float
turn_drive_speed = lit_0_35

pub record Pose : Type 0 where
  pub x : Float
  pub y : Float
  pub yaw : Float
  pub yaw_rate : Float

pub record Action : Type 0 where
  pub distance : Float
  pub angle : Float

pub record Request : Type 0 where
  pub frame_id : ℕ
  pub generation : ℕ
  pub capture_ns : ℕ

-- What is not a primitive, as `decode_action` tests it.
unfoldable pub not_primitive : Arith → Float → Float → Float → Float → Float → Bool
not_primitive m x y cosine sine angle =
    not (eq y zero_f)
    || (not (le zero_f x && le x lit_0_75)
        || (lt lit_0_001 (abs (m.sub (m.add (m.mul cosine cosine) (m.mul sine sine)) one_f))
            || ((lt zero_f x && lt x lit_0_01_less)
                || ((lt zero_f (abs angle) && lt (abs angle) radians_1_less)
                    || (lt radians_45_more (abs angle)
                        || (lt zero_f x && lt lit_e_6 (abs angle)))))))

unfoldable pub decode_action : Arith → List Float → Result Action
decode_action m (x ∷ y ∷ cosine ∷ sine ∷ []) =
    let angle = m.atan2 sine cosine in
    if not (is_finite x && (is_finite y && (is_finite cosine && is_finite sine)))
    then raise value_error
    else if not_primitive m x y cosine sine angle
    then raise value_error
    else ok (record { distance = x; angle = angle })
decode_action m values = raise value_error

unfoldable pub angle_delta : Arith → Float → Float → Float
angle_delta m current previous =
    m.atan2 (m.sin (m.sub current previous)) (m.cos (m.sub current previous))

pub record StepCycle : Type 0 where
  pub max_v : Float
  pub max_w : Float
  pub pose : Option Pose
  pub odom_ns : ℕ
  pub odom_at : Float
  pub generation : ℕ
  pub floor_ns : ℕ
  pub pending : Option Request
  pub action : Option Action
  pub origin : Option Pose
  pub turn_progress : Float
  pub yaw_rate : Float
  pub motion_at : Float
  pub settling : Bool
  pub stopped : Bool
  pub fault : Option String
  pub stop_ns : ℕ
  pub settle_at : Float
  pub settle_pose : Option Pose
  pub settle_stamp_ns : ℕ
  pub stable_since_ns : ℕ
  pub turn_target : Option Float
  pub turn_integral : Float
  pub turn_control_at : Float
  pub turn_emitted : Bool
  pub settle_not_before_ns : ℕ

unfoldable pub init : Float → Float → Result StepCycle
init max_v max_w =
    if lt max_v lit_0_015 || lt max_w turn_drive_speed
    then raise value_error
    else ok (record {
      max_v = max_v;
      max_w = max_w;
      pose = none;
      odom_ns = 0;
      odom_at = minus_inf;
      generation = 0;
      floor_ns = 0;
      pending = none;
      action = none;
      origin = none;
      turn_progress = zero_f;
      yaw_rate = zero_f;
      motion_at = zero_f;
      settling = true;
      stopped = false;
      fault = none;
      stop_ns = 0;
      settle_at = zero_f;
      settle_pose = none;
      settle_stamp_ns = 0;
      stable_since_ns = 0;
      turn_target = none;
      turn_integral = zero_f;
      turn_control_at = zero_f;
      turn_emitted = false;
      settle_not_before_ns = 0;
    })

abbrev pub max_ns : ℕ → ℕ → ℕ
max_ns a b = if ltb a b then b else a

unfoldable pub begin_settling : Bool → ℕ → Float → StepCycle → StepCycle
begin_settling retain_action now_ns now c = record c {
  action = if retain_action then c.action else none;
  settle_not_before_ns =
      if c.turn_emitted
      then max_ns c.settle_not_before_ns (now_ns + 555000000)
      else c.settle_not_before_ns;
  turn_emitted = false;
  settling = true;
  stop_ns = now_ns;
  settle_at = now;
  settle_pose = none;
  settle_stamp_ns = 0;
  stable_since_ns = 0;
}

unfoldable pub cancel : Bool → ℕ → Float → StepCycle → StepCycle
unfolding begin_settling
cancel stopped now_ns now c = begin_settling false now_ns now (record c {
  generation = c.generation + 1;
  pending = none;
  action = none;
  origin = none;
  turn_progress = zero_f;
  stopped = stopped;
  fault = none;
  turn_target = none;
})

unfoldable pub confirm_motor_disabled : ℕ → Float → StepCycle → StepCycle
unfolding begin_settling
confirm_motor_disabled now_ns now c = record (begin_settling true now_ns now c) {
  settle_not_before_ns = now_ns;
}

unfoldable pub fail : String → Float → ℕ → StepCycle → StepCycle
unfolding cancel
fail reason now now_ns c = record (cancel true now_ns now c) {
  turn_progress = c.turn_progress;
  fault = some reason;
}

-- The last odometry is too old for the watchdog.
unfoldable pub odom_stale : Arith → Float → StepCycle → Bool
odom_stale m now c = lt lit_0_3 (m.sub now c.odom_at)

unfoldable pub can_request : Arith → ℕ → Float → ℕ → StepCycle → Bool
can_request m capture_ns now now_ns c =
    not c.stopped
    && (not c.settling
        && (not (is_some c.action)
            && (not (is_some c.pending)
                && (is_some c.pose
                    && (le (m.sub now c.odom_at) lit_0_3
                        && ((ltb c.floor_ns capture_ns && leb capture_ns now_ns)
                            && leb now_ns (capture_ns + 750000000)))))))

-- The request that is now pending, or the error.
unfoldable pub request : Arith → ℕ → ℕ → Float → ℕ → StepCycle → Result Request × StepCycle
request m frame_id capture_ns now now_ns c =
    let r : Request = record {
      frame_id = frame_id;
      generation = c.generation;
      capture_ns = capture_ns;
    } in
    if can_request m capture_ns now now_ns c
    then (ok r, record c { pending = some r })
    else (raise value_error, c)

unfoldable pub start : Arith → Action → Float → ℕ → StepCycle → Bool × StepCycle
unfolding begin_settling odom_stale
start m action now now_ns c =
    if c.stopped || (not (is_some c.pose) || odom_stale m now c)
    then (false, c)
    else (let moving : StepCycle = record c {
      origin = c.pose;
      action = some action;
      turn_progress = zero_f;
      motion_at = now;
      turn_target = if eq action.angle zero_f then none else some action.angle;
      turn_integral = copysign turn_drive_speed action.angle;
      turn_control_at = now;
    } in
        (
          true,
          if eq action.distance zero_f && eq action.angle zero_f
              then begin_settling false now_ns now moving
              else moving,
        ))

-- `request == self.pending`
unfoldable pub is_pending : Request → StepCycle → Bool
is_pending r c = elim c.pending [
  | none ↦ false
  | some p ↦
      r.frame_id == p.frame_id && (r.generation == p.generation && r.capture_ns == p.capture_ns)
]

unfoldable pub accept : Arith → Request → Action → Float → ℕ → StepCycle → Bool × StepCycle
unfolding is_pending
accept m r action now now_ns c =
    let answered : StepCycle = record c { pending = none } in
    if not (is_pending r c) || not (r.generation == c.generation)
    then (false, c)
    else if ltb (r.capture_ns + 1500000000) now_ns
    then (false, fail "reply expired" now now_ns answered)
    else start m action now now_ns answered
