-- ===== src/Edge/Waypoint/Arc.antt =====
-- The branches of the controller's `_limit`, under monotone arithmetic.
use rvln.Prelude.{◌≡◌, refl, true, false, ok, ap, subst, sym, ◌∙◌, Bool-cases, inl, inr, arith}
use rvln.Float.{
  Float, Arith, zero_f, one_f, is_nan, is_finite, lt, le, eq, abs, neg, copysign, py_div,
}
use rvln.Float.Order.{
  le_trans, le_of_not-le, eq-zero_of_lt, lt-le_trans, number_of_finite, finite-abs,
  le_of_not-le-abs, eq-zero_of_lt-abs, not-lt-zero, le-refl_of_finite, finite_of_le, abs_of_pos,
  lt-zero_of_not-le, eq-zero-abs, number_of_le, le_of_lt, milli-pos, finite_of_abs,
}
use rvln.Float.Laws.{Rounds}
use rvln.Edge.Waypoint.{WaypointPd, TwistCmd, milli_f, two_f, limit_slow, limit_fast}

-- Limits and clips that a robot can have. The last two fields say that the arithmetic has no
-- rounding error at the two limits themselves, as at the deployed 0.4 and 1.0.
pub record IsUsable (m : Arith) (c : WaypointPd) : Type 0 where
  pub v_sign : c.max_v.sign ≡ false
  pub v_finite : is_finite c.max_v ≡ true
  pub w_sign : c.max_w.sign ≡ false
  pub w_finite : is_finite c.max_w ≡ true
  pub w_pos : lt zero_f c.max_w ≡ true
  pub linear_clip_ok : le zero_f c.linear_clip ≡ true
  pub linear_clip_finite : is_finite c.linear_clip ≡ true
  pub angular_clip_ok : le (neg c.angular_clip) c.angular_clip ≡ true
  pub angular_clip_finite : is_finite c.angular_clip ≡ true
  pub dt_nonzero : eq c.dt zero_f ≡ false
  pub double_dt_nonzero : eq (m.mul two_f c.dt) zero_f ≡ false
  pub ratio_finite : is_finite (m.div c.max_v c.max_w) ≡ true
  pub ratio_pos : lt zero_f (m.div c.max_v c.max_w) ≡ true
  pub exact_v : m.mul c.max_w (m.div c.max_v c.max_w) ≡ c.max_v
  pub exact_w : m.div c.max_v (m.div c.max_v c.max_w) ≡ c.max_w

-- Both components within the limits, and no backward motion.
pub record Within (c : WaypointPd) (cmd : TwistCmd) : Type 0 where
  pub slow : le (abs cmd.linear) c.max_v ≡ true
  pub gentle : le (abs cmd.angular) c.max_w ≡ true
  pub forward : lt cmd.linear zero_f ≡ false

module _ (m : Arith) (r : Rounds m) (c : WaypointPd) (u : IsUsable m c) where
  -- the speed along the limited arc, when the raw turn ratio is within the ratio of the limits
  arc_bound :
      (rd : Float)
      → rd.sign ≡ false
      → le rd (m.div c.max_v c.max_w) ≡ true
      → le (m.mul c.max_w rd) c.max_v ≡ true
  arc_bound rd s h =
      let p =
        r.mul_mono c.max_w rd (m.div c.max_v c.max_w) u.w_sign s u.w_finite u.ratio_finite h in
      rw u.exact_v at p

  abs_div :
      (l a : Float)
      → is_finite l ≡ true
      → is_finite a ≡ true
      → eq a zero_f ≡ false
      → abs (m.div l a) ≡ m.div (abs l) (abs a)
  unfolding is_finite is_nan eq
  abs_div l a fl fa z =
      let n = number_of_finite a fa in
      ap abs (r.div_sign l a fl n z) ∙ sym (r.div_sign (abs l) (abs a) fl n (ground arith))

  -- a turn faster than `max_w`
  module _ (l a : Float) (fl : is_finite l ≡ true) (fa : is_finite a ≡ true) where
    fast_turn : le (abs a) c.max_w ≡ false → lt zero_f (abs a) ≡ true
    fast_turn k =
        lt-le_trans zero_f c.max_w (abs a) u.w_pos (le_of_not-le-abs a c.max_w fa u.w_finite k)

    quotient_bound :
        le (abs l) c.max_v ≡ true
        → le (abs a) c.max_w ≡ false
        → le (abs (m.div l a)) (m.div c.max_v c.max_w) ≡ true
    quotient_bound h k =
        let pos = fast_turn k in
        rw (abs_div l a fl fa (eq-zero_of_lt-abs a pos)) (
          le_trans (m.div (abs l) (abs a)) (m.div c.max_v (abs a)) (m.div c.max_v c.max_w)
            (r.div_mono (abs l) c.max_v (abs a) refl u.v_finite (finite-abs a fa) pos h)
            (r.div_anti c.max_v c.max_w (abs a) u.v_sign u.v_finite u.w_pos
              (le_of_not-le-abs a c.max_w fa u.w_finite k)))

    -- the command that turns at `max_w` and keeps the turn radius
    abbrev arc : TwistCmd
    arc = record {
      linear = m.mul (m.mul c.max_w (copysign one_f l)) (abs (m.div l a));
      angular = m.mul c.max_w (copysign one_f a);
    }

    unit_arc : l.sign ≡ false → m.mul c.max_w (copysign one_f l) ≡ c.max_w
    unit_arc s =
        r.mul_unit c.max_w l.sign (number_of_finite c.max_w u.w_finite)
        ∙ ground (arith, s, u.w_sign)

    full_turn : abs (m.mul c.max_w (copysign one_f a)) ≡ c.max_w
    full_turn =
        ap abs (r.mul_unit c.max_w a.sign (number_of_finite c.max_w u.w_finite))
        ∙ abs_of_pos c.max_w u.w_sign

    arc-Within : l.sign ≡ false → le (abs (m.div l a)) (m.div c.max_v c.max_w) ≡ true → Within c arc
    arc-Within s h =
        let rd = abs (m.div l a) in
        let fq =
          finite-abs (m.div l a)
            (finite_of_le (m.div l a) (m.div c.max_v c.max_w) u.ratio_finite h) in
        let product = m.mul c.max_w rd in
        let positive : product.sign ≡ false =
          ap (λ x. x.sign) (r.mul_sign c.max_w rd u.w_finite fq) ∙ ground (arith, u.w_sign) in
        record {
          slow = rw (unit_arc s) (rw (abs_of_pos product positive) (arc_bound rd refl h));
          gentle = rw full_turn (le-refl_of_finite c.max_w u.w_finite);
          forward = rw (unit_arc s) (not-lt-zero product positive);
        }

    pub limit_slow-Within :
        (cmd : TwistCmd)
        → l.sign ≡ false
        → le (abs l) c.max_v ≡ true
        → limit_slow m c l a ≡ ok cmd
        → Within c cmd
    unfolding limit_slow py_div
    limit_slow-Within cmd s h e = elim (Bool-cases (le (abs a) c.max_w)) [
      | inl small ↦
          let as_is : record { linear = l; angular = a } ≡ cmd = ground (arith, e, small) in
          subst (Within c) as_is (record { slow = h; gentle = small; forward = not-lt-zero l s })
      | inr large ↦
          let z = eq-zero_of_lt-abs a (fast_turn large) in
          let along : arc ≡ cmd = ground (arith, e, large, z) in
          subst (Within c) along (arc-Within s (quotient_bound h large))
    ]

    full_speed : l.sign ≡ false → m.mul c.max_v (copysign one_f l) ≡ c.max_v
    full_speed s =
        r.mul_unit c.max_v l.sign (number_of_finite c.max_v u.v_finite)
        ∙ ground (arith, s, u.v_sign)

    v_reached : l.sign ≡ false → le (abs (m.mul c.max_v (copysign one_f l))) c.max_v ≡ true
    v_reached s =
        rw (full_speed s) (rw (abs_of_pos c.max_v u.v_sign) (le-refl_of_finite c.max_v u.v_finite))

    -- the turn that goes with `max_v` at the raw turn radius
    slow_turn : Float
    slow_turn = m.div (m.mul c.max_v (copysign one_f a)) (abs (m.div l a))

    slow_turn-le :
        le (m.div c.max_v c.max_w) (abs (m.div l a)) ≡ true → le (abs slow_turn) c.max_w ≡ true
    unfolding slow_turn
    slow_turn-le h =
        let q = abs (m.div l a) in
        let ratio = m.div c.max_v c.max_w in
        let signed = m.mul c.max_v (copysign one_f a) in
        let size : abs signed ≡ c.max_v =
          ap abs (r.mul_unit c.max_v a.sign (number_of_finite c.max_v u.v_finite))
          ∙ abs_of_pos c.max_v u.v_sign in
        let finite = finite_of_abs signed (rw size u.v_finite) in
        let n = number_of_le ratio q h in
        let z = eq-zero-abs (m.div l a) (lt-le_trans zero_f ratio q u.ratio_pos h) in
        let unsigned : abs (m.div signed q) ≡ abs (m.div c.max_v q) =
          ap abs (r.div_sign signed q finite n z) ∙ ap (λ y. abs (m.div y q)) size in
        let positive : (m.div c.max_v q).sign ≡ false =
          ap (λ x. x.sign) (r.div_sign c.max_v q u.v_finite n z) ∙ ground (arith, u.v_sign) in
        let bound = r.div_anti c.max_v ratio q u.v_sign u.v_finite u.ratio_pos h in
        rw unsigned (rw (abs_of_pos (m.div c.max_v q) positive) (rw u.exact_w at bound))

    pub limit_fast-Within :
        (cmd : TwistCmd) → l.sign ≡ false → limit_fast m c l a ≡ ok cmd → Within c cmd
    unfolding limit_fast py_div slow_turn
    limit_fast-Within cmd s e = elim (Bool-cases (le (abs a) milli_f)) [
      | inl straight ↦
          let ahead : record { linear = m.mul c.max_v (copysign one_f l); angular = zero_f } ≡ cmd =
            ground (arith, e, straight) in
          subst (Within c) ahead (record {
            slow = v_reached s;
            gentle = le_of_lt zero_f c.max_w u.w_pos;
            forward = rw (full_speed s) (not-lt-zero c.max_v u.v_sign);
          })
      | inr turning ↦
          let pos = lt-zero_of_not-le a milli_f fa milli-pos turning in
          let z = eq-zero_of_lt-abs a pos in
          let zw = eq-zero_of_lt c.max_w u.w_pos in
          elim (Bool-cases (le (m.div c.max_v c.max_w) (abs (m.div l a)))) [
            | inl wide ↦
                let zr =
                  eq-zero-abs (m.div l a) (
                    lt-le_trans zero_f (m.div c.max_v c.max_w) (abs (m.div l a)) u.ratio_pos
                      wide) in
                let capped : record {
                  linear = m.mul c.max_v (copysign one_f l);
                  angular = slow_turn;
                }
                    ≡ cmd =
                  ground (arith, e, turning, z, zw, wide, zr) in
                subst (Within c) capped (record {
                  slow = v_reached s;
                  gentle = slow_turn-le wide;
                  forward = rw (full_speed s) (not-lt-zero c.max_v u.v_sign);
                })
            | inr tight ↦
                let along : arc ≡ cmd = ground (arith, e, turning, z, zw, tight) in
                subst (Within c) along (
                  arc-Within s (
                    le_of_not-le (m.div c.max_v c.max_w) (abs (m.div l a))
                      (number_of_finite (m.div c.max_v c.max_w) u.ratio_finite)
                      (r.div_number l a fl fa z) tight))
          ]
    ]

    pub limit_slow-total : (cmd : TwistCmd) × (limit_slow m c l a ≡ ok cmd)
    unfolding limit_slow py_div
    limit_slow-total = elim (Bool-cases (le (abs a) c.max_w)) [
      | inl small ↦ (record { linear = l; angular = a }, rw small)
      | inr large ↦ (arc, ground (arith, large, eq-zero_of_lt-abs a (fast_turn large)))
    ]

    pub limit_fast-total : (cmd : TwistCmd) × (limit_fast m c l a ≡ ok cmd)
    unfolding limit_fast py_div
    limit_fast-total = elim (Bool-cases (le (abs a) milli_f)) [
      | inl straight ↦
          (record { linear = m.mul c.max_v (copysign one_f l); angular = zero_f }, rw straight)
      | inr turning ↦
          let z = eq-zero_of_lt-abs a (lt-zero_of_not-le a milli_f fa milli-pos turning) in
          let zw = eq-zero_of_lt c.max_w u.w_pos in
          let ratio = m.div c.max_v c.max_w in
          let q = abs (m.div l a) in
          elim (Bool-cases (le ratio q)) [
            | inl wide ↦
                let zr = eq-zero-abs (m.div l a) (lt-le_trans zero_f ratio q u.ratio_pos wide) in
                (
                  record {
                    linear = m.mul c.max_v (copysign one_f l);
                    angular = m.div (m.mul c.max_v (copysign one_f a)) q;
                  },
                  ground (arith, turning, z, zw, wide, zr),
                )
            | inr tight ↦ (arc, ground (arith, turning, z, zw, tight))
          ]
    ]
