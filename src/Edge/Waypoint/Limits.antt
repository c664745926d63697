-- ===== src/Edge/Waypoint/Limits.antt =====
-- The commands of the controller.
use rvln.Prelude.{
  ℕ, ◌<◌, ◌≡◌, refl, true, false, List, [], ◌∷◌, ok, Bool-cases, inl, inr, length, get_elem?-of_lt,
  arith,
}
use rvln.Float.{Float, Arith, zero_f, is_finite, lt, le, abs, copysign, py_div}
use rvln.Float.Order.{zero-le, not-lt-zero, eq-zero_of_not-lt-abs}
use rvln.Float.Laws.{Rounds}
use rvln.Edge.Waypoint.{
  WaypointPd, TwistCmd, PathPoint, eps_f, pi_f, two_f, wrap_angle, zero_cmd, limit, steer,
  clip_linear, clip_angular, drive, compute, target_index,
}
use rvln.Edge.Waypoint.Arc.{
  IsUsable, Within, limit_slow-Within, limit_fast-Within, limit_slow-total, limit_fast-total,
}

eps-pos : lt zero_f eps_f ≡ true
unfolding lt
eps-pos = refl

module _ (m : Arith) (r : Rounds m) (c : WaypointPd) (u : IsUsable m c) where
  limit-Within :
      (l a : Float) (cmd : TwistCmd)
      → is_finite l ≡ true
      → is_finite a ≡ true
      → l.sign ≡ false
      → limit m c l a ≡ ok cmd
      → Within c cmd
  unfolding limit
  limit-Within l a cmd fl fa s e = elim (Bool-cases (le (abs l) c.max_v)) [
    | inl slow ↦ limit_slow-Within m r c u l a fl fa cmd s slow (rw slow at e)
    | inr fast ↦ limit_fast-Within m r c u l a fl fa cmd s (rw fast at e)
  ]

  clip_linear-ok :
      (v : Float) → (is_finite (clip_linear c v) ≡ true) × ((clip_linear c v).sign ≡ false)
  unfolding lt is_finite
  clip_linear-ok v = ground (arith, u.linear_clip_finite)

  clip_angular-ok : (w : Float) → is_finite (clip_angular c w) ≡ true
  unfolding lt is_finite
  clip_angular-ok w = ground (arith, u.angular_clip_finite)

  limit-total :
      (l a : Float)
      → is_finite l ≡ true
      → is_finite a ≡ true
      → (cmd : TwistCmd) × (limit m c l a ≡ ok cmd)
  unfolding limit
  limit-total l a fl fa = elim (Bool-cases (le (abs l) c.max_v)) [
    | inl slow ↦ let (cmd, e) = limit_slow-total m r c u l a fl fa in (cmd, rw slow e)
    | inr fast ↦ let (cmd, e) = limit_fast-total m r c u l a fl fa in (cmd, rw fast e)
  ]

  steer-total : (wp : PathPoint) → (vw : Float × Float) × (steer m c wp ≡ ok vw)
  unfolding steer py_div
  steer-total wp = elim (Bool-cases (lt (abs wp.x) eps_f)) [
    | inl beside ↦ elim (Bool-cases (lt (abs wp.y) eps_f)) [
      | inl on_robot ↦ (
        (zero_f, m.div (wrap_angle m (m.atan2 wp.sin wp.cos)) c.dt),
        rw (beside, on_robot, u.dt_nonzero),
      )
      | inr off ↦ (
        (zero_f, copysign (m.div pi_f (m.mul two_f c.dt)) wp.y),
        rw (beside, off, u.double_dt_nonzero),
      )
    ]
    | inr ahead ↦ (
      (m.div wp.x c.dt, m.div (m.atan (m.div wp.y wp.x)) c.dt),
      rw (ahead, u.dt_nonzero, eq-zero_of_not-lt-abs wp.x eps_f eps-pos ahead),
    )
  ]

  drive-total : (wp : PathPoint) → (cmd : TwistCmd) × (drive m c wp ≡ ok cmd) × Within c cmd
  unfolding drive
  drive-total wp =
      let ((v, w), steered) = steer-total wp in
      let (fl, sl) = clip_linear-ok v in
      let fa = clip_angular-ok w in
      let (cmd, limited) = limit-total (clip_linear c v) (clip_angular c w) fl fa in
      (
        cmd,
        rw steered limited,
        limit-Within (clip_linear c v) (clip_angular c w) cmd fl fa sl limited,
      )

  target_index-lt : (n : ℕ) → 0 < n → target_index c n < n
  unfolding target_index
  target_index-lt n h = ground arith

  -- Under usable limits (finite, positive where the code divides by them, and with a quotient
  -- `max_v / max_w` that multiplies and divides back exactly) and an arithmetic that rounds
  -- monotonically, the controller raises nothing on any path, whatever values its waypoints have,
  -- NaN and infinities included, and the command that it computes is within both speed limits and
  -- never drives backward.
  pub compute-Within :
      (path : List PathPoint) → (cmd : TwistCmd) × (compute m c path ≡ ok cmd) × Within c cmd
  unfolding compute
  compute-Within [] = (
    zero_cmd,
    refl,
    record {
      slow = zero-le c.max_v u.v_sign u.v_finite;
      gentle = zero-le c.max_w u.w_sign u.w_finite;
      forward = not-lt-zero zero_f refl;
    },
  )
  compute-Within (p ∷ path) =
      let n = length (p ∷ path) in
      let (wp, found) =
        get_elem?-of_lt (p ∷ path) (target_index c n) (target_index-lt n (omega arith)) in
      let (cmd, e, w) = drive-total wp in (cmd, rw (found, compute) e, w)
