-- ===== src/Edge/Waypoint.antt =====
-- src/rvln_edge/rvln_edge/waypoint_pd.py: the single-waypoint proportional controller, and the
-- command type of pure_pursuit.py. `waypoint_select` is a natural number, as every launch file and
-- the default give it.
pub mod Arc
pub mod Limits
pub mod Invalid
use rvln.Prelude.{
  ℕ, ◌-◌, List, [], ◌∷◌, Option, none, some, Bool, ◌&&◌, leb, length, get_elem?, if◌then◌else◌,
  Result, ok, raise, value_error, index_error, ◌>>=◌,
}
use rvln.Float.{Float, Arith, zero_f, one_f, lt, le, abs, neg, copysign, min, max, py_div}

pub record TwistCmd : Type 0 where
  pub linear : Float
  pub angular : Float

pub record PathPoint : Type 0 where
  pub x : Float
  pub y : Float
  pub cos : Float
  pub sin : Float

abbrev pub two_f : Float
two_f = record { sign = Bool.false; mag = 0x4000000000000000 }

-- `math.pi`
abbrev pub pi_f : Float
pi_f = record { sign = Bool.false; mag = 0x400921FB54442D18 }

-- 1e-8 and 0.001
abbrev pub eps_f : Float
eps_f = record { sign = Bool.false; mag = 0x3E45798EE2308C3A }

abbrev pub milli_f : Float
milli_f = record { sign = Bool.false; mag = 0x3F50624DD2F1A9FC }

abbrev pub zero_cmd : TwistCmd
zero_cmd = record { linear = zero_f; angular = zero_f }

unfoldable pub wrap_angle : Arith → Float → Float
wrap_angle m theta = m.atan2 (m.sin theta) (m.cos theta)

pub record WaypointPd : Type 0 where
  pub max_v : Float
  pub max_w : Float
  pub waypoint_select : ℕ
  pub dt : Float
  pub linear_clip : Float
  pub angular_clip : Float

unfoldable pub init : Float → Float → ℕ → Float → Float → Float → Result WaypointPd
init max_v max_w waypoint_select dt linear_clip angular_clip =
    if le dt zero_f
    then raise value_error
    else ok (record {
      max_v = max_v;
      max_w = max_w;
      waypoint_select = waypoint_select;
      dt = dt;
      linear_clip = linear_clip;
      angular_clip = angular_clip;
    })

-- `_limit`, by its branches: the linear speed is within `max_v` ...
unfoldable pub limit_slow : Arith → WaypointPd → Float → Float → Result TwistCmd
limit_slow m c linear angular =
    if le (abs angular) c.max_w then ok (record { linear = linear; angular = angular }) else do
      rd ← py_div m linear angular
      ok (record {
        linear = m.mul (m.mul c.max_w (copysign one_f linear)) (abs rd);
        angular = m.mul c.max_w (copysign one_f angular);
      })

-- ... or above it
unfoldable pub limit_fast : Arith → WaypointPd → Float → Float → Result TwistCmd
limit_fast m c linear angular =
    if le (abs angular) milli_f
    then ok (record { linear = m.mul c.max_v (copysign one_f linear); angular = zero_f })
    else do
      rd ← py_div m linear angular
      ratio ← py_div m c.max_v c.max_w
      if le ratio (abs rd)
          then (do
            w ← py_div m (m.mul c.max_v (copysign one_f angular)) (abs rd)
            ok (record { linear = m.mul c.max_v (copysign one_f linear); angular = w }))
          else ok (record {
            linear = m.mul (m.mul c.max_w (copysign one_f linear)) (abs rd);
            angular = m.mul c.max_w (copysign one_f angular);
          })

unfoldable pub limit : Arith → WaypointPd → Float → Float → Result TwistCmd
unfolding limit_slow limit_fast
limit m c linear angular =
    if le (abs linear) c.max_v then limit_slow m c linear angular else limit_fast m c linear angular

-- The raw velocities toward a waypoint.
unfoldable pub steer : Arith → WaypointPd → PathPoint → Result (Float × Float)
unfolding wrap_angle
steer m c wp =
    if lt (abs wp.x) eps_f && lt (abs wp.y) eps_f
    then (do w ← py_div m (wrap_angle m (m.atan2 wp.sin wp.cos)) c.dt; ok (zero_f, w))
    else if lt (abs wp.x) eps_f
    then (do w ← py_div m pi_f (m.mul two_f c.dt); ok (zero_f, copysign w wp.y))
    else do
      v ← py_div m wp.x c.dt
      slope ← py_div m wp.y wp.x
      w ← py_div m (m.atan slope) c.dt
      ok (v, w)

abbrev pub clip_linear : WaypointPd → Float → Float
clip_linear c v = max zero_f (min c.linear_clip v)

abbrev pub clip_angular : WaypointPd → Float → Float
clip_angular c w = max (neg c.angular_clip) (min c.angular_clip w)

-- The waypoint a fixed number of steps ahead, or the last one.
unfoldable pub target_index : WaypointPd → ℕ → ℕ
target_index c n = if leb n c.waypoint_select then n - 1 else c.waypoint_select

unfoldable pub drive : Arith → WaypointPd → PathPoint → Result TwistCmd
unfolding steer
drive m c wp = do (v, w) ← steer m c wp; limit m c (clip_linear c v) (clip_angular c w)

unfoldable pub compute : Arith → WaypointPd → List PathPoint → Result TwistCmd
unfolding target_index
compute m c [] = ok zero_cmd
compute m c (p ∷ path) = elim (get_elem? (p ∷ path) (target_index c (length (p ∷ path)))) [
  | none ↦ raise index_error
  | some wp ↦ drive m c wp
]
