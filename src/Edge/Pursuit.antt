-- ===== src/Edge/Pursuit.antt =====
-- src/rvln_edge/rvln_edge/pure_pursuit.py: the pure pursuit controller.
pub mod Bounds
use rvln.Prelude.{
  Bool, List, [], ◌∷◌, ◌&&◌, if◌then◌else◌, Result, ok, raise, value_error, ◌>>=◌, ◌==◌,
}
use rvln.Float.{Float, Arith, zero_f, lt, le, abs, neg, copysign, min, max, py_div, of_angle}
use rvln.Edge.Waypoint.{TwistCmd, zero_cmd, two_f}

-- 1e-9
abbrev pub nano_f : Float
nano_f = record { sign = Bool.false; mag = 0x3E112E0BE826D695 }

pub record Pose2d : Type 0 where
  pub x : Float
  pub y : Float
  pub theta : Float

pub record Waypoint2d : Type 0 where
  pub x : Float
  pub y : Float

pub record PurePursuit : Type 0 where
  pub lookahead : Float
  pub max_v : Float
  pub max_w : Float
  pub no_backward : Bool
  pub kw : Float

-- The first waypoint that is at least `lookahead` away; `last` is `path[-1]`.
unfoldable pub pick : Arith → PurePursuit → Pose2d → Waypoint2d → List Waypoint2d → Waypoint2d
pick m c robot last [] = last
pick m c robot last (wp ∷ path) =
    let rest = pick m c robot last path in
    if le c.lookahead (m.hypot (m.sub wp.x robot.x) (m.sub wp.y robot.y)) then wp else rest

-- `path[-1]`
unfoldable pub last_of : Waypoint2d → List Waypoint2d → Waypoint2d
last_of wp [] = wp
last_of wp (next ∷ path) = last_of next path

-- The target in the robot's frame.
unfoldable pub to_local : Arith → Pose2d → Waypoint2d → Result (Float × Float)
to_local m robot target =
    let dx = m.sub target.x robot.x in
    let dy = m.sub target.y robot.y in
    do
      cos_t ← of_angle m.cos robot.theta
      sin_t ← of_angle m.sin robot.theta
      ok (m.add (m.mul cos_t dx) (m.mul sin_t dy), m.add (m.mul (neg sin_t) dx) (m.mul cos_t dy))

-- The target is behind: rotate toward it.
unfoldable pub rotate : Arith → PurePursuit → Float → Float → TwistCmd
rotate m c x_local y_local = record {
  linear = zero_f;
  angular = max (neg c.max_w) (min c.max_w (m.mul c.kw (m.atan2 y_local x_local)));
}

-- `if abs(angular) > self.max_w: angular = math.copysign(self.max_w, angular)`
unfoldable pub saturate : PurePursuit → Float → Float
saturate c angular = if lt c.max_w (abs angular) then copysign c.max_w angular else angular

unfoldable pub follow_arc : Arith → PurePursuit → Float → Float → Result TwistCmd
follow_arc m c x_local y_local =
    let l_sq = m.add (m.mul x_local x_local) (m.mul y_local y_local) in
    if lt l_sq nano_f then ok zero_cmd else do
      curvature ← py_div m (m.mul two_f y_local) l_sq
      ok (record {
        linear = min c.max_v (max zero_f x_local);
        angular = saturate c (m.mul (min c.max_v (max zero_f x_local)) curvature);
      })

unfoldable pub pursue : Arith → PurePursuit → Float × Float → Result TwistCmd
pursue m c (x_local, y_local) =
    if le x_local zero_f && c.no_backward
    then ok (rotate m c x_local y_local)
    else follow_arc m c x_local y_local

unfoldable pub compute : Arith → PurePursuit → Pose2d → List Waypoint2d → Result TwistCmd
compute m c robot [] = ok zero_cmd
compute m c robot (wp ∷ path) =
    to_local m robot (pick m c robot (last_of wp path) (wp ∷ path)) >>= pursue m c
