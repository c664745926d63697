-- ===== src/Edge/Waypoint/Invalid.antt =====
-- A waypoint that is not a number.
use rvln.Prelude.{◌≡◌, true, false, arith}
use rvln.Float.{Float, Arith, zero_f, is_nan, lt, eq, abs, min, max, neg, py_div}
use rvln.Float.Laws.{SpreadsNan}
use rvln.Edge.Waypoint.{WaypointPd, PathPoint, eps_f, limit, steer, drive}

lt-nan_left : (a b : Float) → is_nan a ≡ true → lt a b ≡ false
unfolding lt
lt-nan_left a b h = ground arith

eq-nan : (a b : Float) → is_nan a ≡ true → eq a b ≡ false
unfolding eq
eq-nan a b h = ground arith

nan-abs : (a : Float) → is_nan a ≡ true → is_nan (abs a) ≡ true
unfolding is_nan
nan-abs a h = h

-- Clipping a NaN gives the upper limit.
clip-nan : (lo hi x : Float) → is_nan x ≡ true → lt lo hi ≡ true → max lo (min hi x) ≡ hi
clip-nan lo hi x h p = rw (lt-nan_left x hi h) (rw p)

-- A waypoint whose forward coordinate is NaN is not refused: the controller limits the command at
-- both upper clips, full speed ahead with a full turn to the left, as long as the clips are
-- positive and the time step is not zero.
pub drive-nan :
    (m : Arith) (c : WaypointPd) (wp : PathPoint)
    → SpreadsNan m
    → is_nan wp.x ≡ true
    → eq c.dt zero_f ≡ false
    → lt zero_f c.linear_clip ≡ true
    → lt (neg c.angular_clip) c.angular_clip ≡ true
    → drive m c wp ≡ limit m c c.linear_clip c.angular_clip
unfolding drive steer py_div
drive-nan m c wp s h d v w =
    let slope = s.div_right wp.y wp.x h in
    let turn = s.div_left (m.atan (m.div wp.y wp.x)) c.dt (s.atan_nan (m.div wp.y wp.x) slope) in
    let speed = s.div_left wp.x c.dt h in
    rw (lt-nan_left (abs wp.x) eps_f (nan-abs wp.x h), d, eq-nan wp.x zero_f h)
      (rw (
        lt-nan_left (m.div wp.x c.dt) c.linear_clip speed,
        lt-nan_left (m.div (m.atan (m.div wp.y wp.x)) c.dt) c.angular_clip turn,
        v,
        w,
      ))
