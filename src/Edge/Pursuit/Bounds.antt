-- ===== src/Edge/Pursuit/Bounds.antt =====
-- src/rvln_edge/rvln_edge/pure_pursuit.py: when the controller raises, and its limits.
use rvln.Prelude.{
  ◌≡◌, refl, subst, Bool, true, false, Result, raise, value_error, List, [], ◌∷◌, ok, arith,
  Bool-cases, inl, inr, ◌&&◌,
}
use rvln.Float.{
  Float, Arith, zero_f, lt, le, eq, abs, is_nan, min, max, py_div, is_infinite, of_angle,
}
use rvln.Float.Clip.{min-slow, min-max-forward, clip-gentle, zero-slow}
use rvln.Edge.Waypoint.{TwistCmd, zero_cmd, two_f}
use rvln.Edge.Pursuit.{
  PurePursuit, Pose2d, Waypoint2d, nano_f, pick, last_of, to_local, rotate, saturate, follow_arc,
  pursue, compute,
}

-- The limits are numbers that are not negative.
pub record IsUsable (c : PurePursuit) : Type 0 where
  pub v_sign : c.max_v.sign ≡ false
  pub v_number : is_nan c.max_v ≡ false
  pub w_sign : c.max_w.sign ≡ false
  pub w_number : is_nan c.max_w ≡ false

-- Nothing in the command exceeds a limit, and it does not drive backward.
pub record Bounded (c : PurePursuit) (cmd : TwistCmd) : Type 0 where
  pub slow : lt c.max_v cmd.linear ≡ false
  pub forward : lt cmd.linear zero_f ≡ false
  pub gentle : lt c.max_w (abs cmd.angular) ≡ false

-- The heading is infinite, and there is a waypoint to turn to.
abbrev pub is_lost : Pose2d → List Waypoint2d → Bool
is_lost robot [] = false
is_lost robot (wp ∷ path) = is_infinite robot.theta

-- What the controller may answer.
abbrev pub Steers : PurePursuit → Pose2d → List Waypoint2d → Result TwistCmd → Type 0
Steers c robot path (ok cmd) = (is_lost robot path ≡ false) × Bounded c cmd
Steers c robot path (raise e) = (is_lost robot path ≡ true) × (e ≡ value_error)

saturate-gentle :
    (c : PurePursuit) (w : Float) → c.max_w.sign ≡ false → lt c.max_w (abs (saturate c w)) ≡ false
unfolding saturate lt
saturate-gentle c w h = ground arith

nonzero : (l : Float) → lt l nano_f ≡ false → eq l zero_f ≡ false
unfolding lt eq is_nan
nonzero l h = ground arith

module _ (m : Arith) (c : PurePursuit) (u : IsUsable c) where
  zero-Bounded : Bounded c zero_cmd
  zero-Bounded = record {
    slow = zero-slow c.max_v u.v_sign;
    forward = zero-slow zero_f refl;
    gentle = zero-slow c.max_w u.w_sign;
  }

  arc-Bounded : (x y : Float) → (cmd : TwistCmd) × (follow_arc m c x y ≡ ok cmd) × Bounded c cmd
  unfolding follow_arc py_div
  arc-Bounded x y =
      let l_sq = m.add (m.mul x x) (m.mul y y) in
      elim (Bool-cases (lt l_sq nano_f)) [
        | inl near ↦ (zero_cmd, ground (arith, near), zero-Bounded)
        | inr far ↦
            let v = min c.max_v (max zero_f x) in
            let w = m.mul v (m.div (m.mul two_f y) l_sq) in
            (
              record { linear = v; angular = saturate c w },
              ground (arith, far, nonzero l_sq far),
              record {
                slow = min-slow c.max_v (max zero_f x);
                forward = min-max-forward c.max_v zero_f x u.v_sign refl;
                gentle = saturate-gentle c w u.w_sign;
              },
            )
      ]

  pursue-Bounded : (x y : Float) → (cmd : TwistCmd) × (pursue m c (x, y) ≡ ok cmd) × Bounded c cmd
  unfolding pursue rotate
  pursue-Bounded x y = elim (Bool-cases (le x zero_f && c.no_backward)) [
    | inl behind ↦ (
      rotate m c x y,
      ground (arith, behind),
      record {
        slow = zero-slow c.max_v u.v_sign;
        forward = zero-slow zero_f refl;
        gentle = clip-gentle c.max_w (m.mul c.kw (m.atan2 y x)) u.w_sign u.w_number;
      },
    )
    | inr ahead ↦
        let (cmd, same, bounded) = arc-Bounded x y in (cmd, ground (arith, ahead, same), bounded)
  ]

  to_local-finite :
      (robot : Pose2d) (target : Waypoint2d)
      → is_infinite robot.theta ≡ false
      → (local : Float × Float) × (to_local m robot target ≡ ok local)
  unfolding to_local of_angle
  to_local-finite robot target h = rw (h, is_infinite) (_, refl)

  to_local-infinite :
      (robot : Pose2d) (target : Waypoint2d)
      → is_infinite robot.theta ≡ true
      → to_local m robot target ≡ raise value_error
  unfolding to_local of_angle
  to_local-infinite robot target h = ground arith

  -- With limits that are numbers and not negative, and whatever the arithmetic and libm compute: for
  -- a path with a waypoint and an infinite heading the controller raises a value error; for any
  -- other path and pose, NaN included, it raises nothing, and its command exceeds neither limit and
  -- does not drive backward. In particular it never divides by zero.
  pub pursuit-Bounded :
      (robot : Pose2d) (path : List Waypoint2d) → Steers c robot path (compute m c robot path)
  unfolding compute
  pursuit-Bounded robot [] = (refl, zero-Bounded)
  pursuit-Bounded robot (wp ∷ path) =
      let target = pick m c robot (last_of wp path) (wp ∷ path) in
      let Good = Steers c robot (wp ∷ path) in
      elim (Bool-cases (is_infinite robot.theta)) [
        | inl infinite ↦
            let raised = to_local-infinite robot target infinite in
            let goes : raise value_error ≡ compute m c robot (wp ∷ path) = ground (arith, raised) in
            subst Good goes (infinite, refl)
        | inr fine ↦
            let (local, placed) = to_local-finite robot target fine in
            let (cmd, same, bounded) = pursue-Bounded local.0 local.1 in
            let goes : ok cmd ≡ compute m c robot (wp ∷ path) = ground (arith, placed, same) in
            subst Good goes (fine, bounded)
      ]
