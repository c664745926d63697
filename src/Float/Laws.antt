-- ===== src/Float/Laws.antt =====
-- What is relied on of the platform's arithmetic: facts of IEEE 754, which rounds correctly and so
-- monotonically, treats signs apart from magnitudes, and multiplies exactly by one. They are
-- stated at operands for which no operation is invalid.
use rvln.Prelude.{◌≡◌, Bool, true, false}
use rvln.Float.{Float, Arith, zero_f, one_f, is_nan, is_finite, lt, le, eq, abs, xor_sign}

-- Multiplication and division, on their magnitudes and signs.
pub record Rounds (m : Arith) : Type 0 where
  pub mul_unit :
      (a : Float) (s : Bool)
      → is_nan a ≡ false
      → m.mul a (record { sign = s; mag = one_f.mag })
        ≡ record { sign = xor_sign a.sign s; mag = a.mag }
  pub mul_sign :
      (a b : Float)
      → is_finite a ≡ true
      → is_finite b ≡ true
      → m.mul a b ≡ record { sign = xor_sign a.sign b.sign; mag = (m.mul (abs a) (abs b)).mag }
  pub div_sign :
      (a b : Float)
      → is_finite a ≡ true
      → is_nan b ≡ false
      → eq b zero_f ≡ false
      → m.div a b ≡ record { sign = xor_sign a.sign b.sign; mag = (m.div (abs a) (abs b)).mag }
  pub div_number :
      (a b : Float)
      → is_finite a ≡ true
      → is_finite b ≡ true
      → eq b zero_f ≡ false
      → is_nan (m.div a b) ≡ false
  pub mul_mono :
      (a x y : Float)
      → a.sign ≡ false
      → x.sign ≡ false
      → is_finite a ≡ true
      → is_finite y ≡ true
      → le x y ≡ true
      → le (m.mul a x) (m.mul a y) ≡ true
  pub div_mono :
      (x y b : Float)
      → x.sign ≡ false
      → is_finite y ≡ true
      → is_finite b ≡ true
      → lt zero_f b ≡ true
      → le x y ≡ true
      → le (m.div x b) (m.div y b) ≡ true
  pub div_anti :
      (a x y : Float)
      → a.sign ≡ false
      → is_finite a ≡ true
      → lt zero_f x ≡ true
      → le x y ≡ true
      → le (m.div a y) (m.div a x) ≡ true

-- An invalid operand makes an invalid result.
pub record SpreadsNan (m : Arith) : Type 0 where
  pub div_left : (a b : Float) → is_nan a ≡ true → is_nan (m.div a b) ≡ true
  pub div_right : (a b : Float) → is_nan b ≡ true → is_nan (m.div a b) ≡ true
  pub atan_nan : (a : Float) → is_nan a ≡ true → is_nan (m.atan a) ≡ true
