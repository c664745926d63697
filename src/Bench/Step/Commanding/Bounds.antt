-- ===== src/Bench/Step/Commanding/Bounds.antt =====
-- bench/src/bench/navida_step.py, `StepCycle.command`: when the robot may move, and how fast.
use rvln.Prelude.{
  ℕ, ◌≡◌, refl, sym, subst, ◌⊎◌, inl, inr, true, false, Bool, some, none, Option, ◌||◌,
  if◌then◌else◌, Bool-cases, Option-cases,
}
use rvln.Float.{Float, Arith, zero_f, lt, abs, is_nan, min, max}
use rvln.Float.Clip.{min-slow, min-max-forward, clip-gentle, zero-slow}
use rvln.Float.Literals.{lit_0_015, lit_0_05, lit_0_5, lit_4, lit_0_08, lit_3, radians_5}
use rvln.Bench.Step.{Pose, Action, StepCycle, odom_stale}
use rvln.Bench.Step.Commanding.{
  standing, overdue, drive, control, turn, move, act, idle, act_if, command, clip,
}

-- The limits are numbers that are not negative.
pub record IsUsable (c : StepCycle) : Type 0 where
  pub v_sign : c.max_v.sign ≡ false
  pub w_sign : c.max_w.sign ≡ false
  pub w_number : is_nan c.max_w ≡ false

-- Forward no faster than `max_v`, and turning no faster than `max_w`.
pub record Limited (c : StepCycle) (cmd : Float × Float) : Type 0 where
  pub slow : lt c.max_v cmd.0 ≡ false
  pub forward : lt cmd.0 zero_f ≡ false
  pub gentle : lt c.max_w (abs cmd.1) ≡ false

-- Standing still, or moving at a time when that is allowed.
pub record Allowed (m : Arith) (now : Float) (motion_enabled : Bool) (c : StepCycle) : Type 0 where
  pub running : c.stopped ≡ false
  pub settled : c.settling ≡ false
  pub fresh : odom_stale m now c ≡ false
  pub enabled : motion_enabled ≡ true
  pub acting : (a : Action) × (c.action ≡ some a) × (overdue m now a c ≡ false)

abbrev pub Safe : Arith → Float → Bool → StepCycle → Float × Float → Type 0
Safe m now motion_enabled c cmd = (cmd ≡ standing) ⊎ Allowed m now motion_enabled c

module _ (m : Arith) (c : StepCycle) (u : IsUsable c) where
  pub standing-Limited : Limited c standing
  standing-Limited = record {
    slow = zero-slow c.max_v u.v_sign;
    forward = zero-slow zero_f refl;
    gentle = zero-slow c.max_w u.w_sign;
  }

  abbrev DriveOk : Option Float → Type 0
  DriveOk none = Unit
  DriveOk (some v) = Limited c (v, zero_f)

  abbrev TurnOk : Option (Float × StepCycle) → Type 0
  TurnOk none = Unit
  TurnOk (some t) = Limited c (zero_f, t.0)

  drive-ok : (pose origin : Pose) (action : Action) → DriveOk (drive m pose origin action c)
  unfolding drive
  drive-ok pose origin action =
      let remaining : Float = m.sub action.distance (
        m.add (m.mul (m.sub pose.x origin.x) (m.cos origin.yaw))
          (m.mul (m.sub pose.y origin.y) (m.sin origin.yaw))) in
      elim (Bool-cases (lt (min lit_0_05 (m.div action.distance lit_4)) remaining)) [
        | inl far ↦
            rw (far, drive)
              (record {
                slow = min-slow c.max_v (max lit_0_015 (m.mul lit_0_5 remaining));
                forward = min-max-forward c.max_v lit_0_015 (m.mul lit_0_5 remaining) u.v_sign refl;
                gentle = zero-slow c.max_w u.w_sign;
              })
        | inr near ↦ rw (near, drive) tt
      ]

  turning-Limited :
      (off : Bool) (x : Float) → Limited c (zero_f, if off then clip c.max_w x else zero_f)
  turning-Limited true x = record {
    slow = zero-slow c.max_v u.v_sign;
    forward = zero-slow zero_f refl;
    gentle = clip-gentle c.max_w x u.w_sign u.w_number;
  }
  turning-Limited false x = standing-Limited

  turn-ok : (now : Float) (action : Action) → TurnOk (turn m now action c)
  unfolding turn control
  turn-ok now action =
      let off : Bool =
        lt (min radians_5 (m.div (abs action.angle) lit_3))
          (abs (m.sub action.angle c.turn_progress)) in
      elim (Bool-cases (off || lt lit_0_08 (abs c.yaw_rate))) [
        | inl turning ↦ rw (turning, turn) (turning-Limited off _)
        | inr done ↦ rw (done, turn) tt
      ]

  move-Limited :
      (now : Float) (now_ns : ℕ) (pose origin : Pose) (action : Action)
      → Limited c (move m now now_ns pose origin action c).0
  unfolding move
  move-Limited now now_ns pose origin action = elim (Bool-cases (lt zero_f action.distance)) [
    | inl straight ↦ elim (Option-cases (drive m pose origin action c)) [
      | inl near ↦ rw (straight, near, move) standing-Limited
      | inr (v, e) ↦ rw (straight, e, move) (subst DriveOk e (drive-ok pose origin action))
    ]
    | inr turning ↦ elim (Option-cases (turn m now action c)) [
      | inl near ↦ rw (turning, near, move) standing-Limited
      | inr (t, e) ↦ rw (turning, e, move) (subst TurnOk e (turn-ok now action))
    ]
  ]

  -- What a round may do to a moving robot.
  abbrev Checked : Float → Bool → Float × Float → Type 0
  Checked now motion_enabled cmd = Limited c cmd × Safe m now motion_enabled c cmd

  still : (now : Float) (motion_enabled : Bool) → Checked now motion_enabled standing
  still now motion_enabled = (standing-Limited, inl refl)

  act-Checked :
      (now : Float) (now_ns : ℕ) (enabled : Bool) (pose origin : Pose) (action : Action)
      → c.stopped ≡ false
      → odom_stale m now c ≡ false
      → c.action ≡ some action
      → Checked now enabled (act m now now_ns enabled pose origin action c).0
  unfolding act
  act-Checked now now_ns enabled pose origin action running fresh acting =
      elim (Bool-cases (overdue m now action c)) [
        | inl late ↦ rw (late, act) (still now enabled)
        | inr timely ↦ elim (Bool-cases c.settling) [
          | inl waiting ↦
              let e : (act m now now_ns enabled pose origin action c).0 ≡ standing =
                simp (timely, waiting, act) in
              subst (Checked now enabled) (sym e) (still now enabled)
          | inr settled ↦ elim (Bool-cases enabled) [
            | inr off ↦
                let e : (act m now now_ns enabled pose origin action c).0 ≡ standing =
                  simp (timely, settled, off, act) in
                subst (Checked now enabled) (sym e) (still now enabled)
            | inl on ↦
                let e : (act m now now_ns enabled pose origin action c).0
                    ≡ (move m now now_ns pose origin action c).0 =
                  simp (timely, settled, on, act) in
                subst (Checked now enabled) (sym e) (
                  move-Limited now now_ns pose origin action,
                  inr (record {
                    running = running;
                    settled = settled;
                    fresh = fresh;
                    enabled = on;
                    acting = (action, acting, timely);
                  }),
                )
          ]
        ]
      ]

  act_if-Checked :
      (now : Float) (now_ns : ℕ) (enabled : Bool) (pose : Pose)
      → c.stopped ≡ false
      → odom_stale m now c ≡ false
      → Checked now enabled (act_if m now now_ns enabled pose c).0
  unfolding act_if idle
  act_if-Checked now now_ns enabled pose running fresh = elim (Option-cases c.action) [
    | inl none_left ↦
        let e : (act_if m now now_ns enabled pose c).0 ≡ standing = simp (none_left, act_if) in
        subst (Checked now enabled) (sym e) (still now enabled)
    | inr (action, acting) ↦ elim (Option-cases c.origin) [
      | inl nowhere ↦
          let e : (act_if m now now_ns enabled pose c).0 ≡ standing =
            simp (acting, nowhere, act_if) in
          subst (Checked now enabled) (sym e) (still now enabled)
      | inr (origin, started) ↦
          let e : (act_if m now now_ns enabled pose c).0
              ≡ (act m now now_ns enabled pose origin action c).0 =
            simp (acting, started, act_if) in
          subst (Checked now enabled) (sym e)
            (act-Checked now now_ns enabled pose origin action running fresh acting)
    ]
  ]

  -- With limits that are numbers and not negative, and whatever the arithmetic and libm compute, the
  -- velocities of a round are within both limits and never backward. They are zero unless the cycle
  -- is not stopped, its odometry is fresh, its last stop is confirmed, the motor is enabled and an
  -- action is under way within its time.
  pub command-Safe :
      (now : Float) (now_ns : ℕ) (motion_enabled : Bool)
      → let cmd = (command m now now_ns motion_enabled c).0 in
        Limited c cmd × Safe m now motion_enabled c cmd
  unfolding command
  command-Safe now now_ns enabled = elim (Bool-cases c.stopped) [
    | inl halted ↦
        let e : (command m now now_ns enabled c).0 ≡ standing = simp (halted, command) in
        subst (Checked now enabled) (sym e) (still now enabled)
    | inr running ↦ elim (Option-cases c.pose) [
      | inl lost ↦
          let e : (command m now now_ns enabled c).0 ≡ standing = simp (running, lost, command) in
          subst (Checked now enabled) (sym e) (still now enabled)
      | inr (pose, seen) ↦ elim (Bool-cases (odom_stale m now c)) [
        | inl old ↦
            let e : (command m now now_ns enabled c).0 ≡ standing =
              simp (running, seen, old, command) in
            subst (Checked now enabled) (sym e) (still now enabled)
        | inr fresh ↦
            let e : (command m now now_ns enabled c).0 ≡ (act_if m now now_ns enabled pose c).0 =
              simp (running, seen, fresh, command) in
            subst (Checked now enabled) (sym e)
              (act_if-Checked now now_ns enabled pose running fresh)
      ]
    ]
  ]
