-- ===== src/Tests/Platform.antt =====
-- An arithmetic that meets the laws: it adds and subtracts the bits of magnitudes, which is
-- multiplication and division to within one part in twelve, and is exact at powers of two.
use rvln.Prelude.{ℕ, ◌+◌, ◌-◌, ◌≡◌, Bool, true, false, ◌||◌, ltb, ◌==◌, if◌then◌else◌, arith}
use rvln.Float.{Float, Arith, zero_f, one_f, is_nan, is_finite, lt, le, eq, abs, xor_sign}
use rvln.Float.Laws.{Rounds, SpreadsNan}

abbrev pub nan_f : Float
nan_f = record { sign = false; mag = 0x7FF8000000000000 }

abbrev cap : ℕ → ℕ
cap n = if ltb n 0x7FF0000000000000 then n else 0x7FF0000000000000

unfoldable pub times : Float → Float → Float
unfolding is_nan
times a b = if is_nan a || is_nan b then nan_f else record {
  sign = xor_sign a.sign b.sign;
  mag = if a.mag == 0 || b.mag == 0 then 0 else cap (a.mag + b.mag - 0x3FF0000000000000);
}

unfoldable pub over : Float → Float → Float
unfolding is_nan
over a b = if is_nan a || is_nan b then nan_f else record {
  sign = xor_sign a.sign b.sign;
  mag = if a.mag == 0 then 0 else cap (a.mag + 0x3FF0000000000000 - b.mag);
}

abbrev pub platform : Arith
platform = record {
  of_ℕ = λ n. one_f;
  add = λ a b. a;
  sub = λ a b. a;
  mul = times;
  div = over;
  hypot = λ a b. a;
  cos = λ a. one_f;
  sin = λ a. zero_f;
  atan = λ a. a;
  atan2 = λ a b. a;
}

unit-times :
    (a : Float) (s : Bool)
    → is_nan a ≡ false
    → times a (record { sign = s; mag = one_f.mag })
      ≡ record { sign = xor_sign a.sign s; mag = a.mag }
unfolding times is_nan
unit-times a s h = ground arith

sign-times :
    (a b : Float)
    → is_finite a ≡ true
    → is_finite b ≡ true
    → times a b ≡ record { sign = xor_sign a.sign b.sign; mag = (times (abs a) (abs b)).mag }
unfolding times is_finite
sign-times a b h k = ground arith

sign-over :
    (a b : Float)
    → is_finite a ≡ true
    → is_nan b ≡ false
    → eq b zero_f ≡ false
    → over a b ≡ record { sign = xor_sign a.sign b.sign; mag = (over (abs a) (abs b)).mag }
unfolding over is_finite is_nan
sign-over a b h k z = ground arith

number-over :
    (a b : Float)
    → is_finite a ≡ true
    → is_finite b ≡ true
    → eq b zero_f ≡ false
    → is_nan (over a b) ≡ false
unfolding over is_finite is_nan
number-over a b h k z = ground arith

mono-times :
    (a x y : Float)
    → a.sign ≡ false
    → x.sign ≡ false
    → is_finite a ≡ true
    → is_finite y ≡ true
    → le x y ≡ true
    → le (times a x) (times a y) ≡ true
unfolding times is_finite le
mono-times a x y p q h k o = ground arith

mono-over :
    (x y b : Float)
    → x.sign ≡ false
    → is_finite y ≡ true
    → is_finite b ≡ true
    → lt zero_f b ≡ true
    → le x y ≡ true
    → le (over x b) (over y b) ≡ true
unfolding over is_finite le lt
mono-over x y b p h k pos o = ground arith

anti-over :
    (a x y : Float)
    → a.sign ≡ false
    → is_finite a ≡ true
    → lt zero_f x ≡ true
    → le x y ≡ true
    → le (over a y) (over a x) ≡ true
unfolding over is_finite le lt
anti-over a x y p h pos o = ground arith

pub platform-Rounds : Rounds platform
platform-Rounds = record {
  mul_unit = unit-times;
  mul_sign = sign-times;
  div_sign = sign-over;
  div_number = number-over;
  mul_mono = mono-times;
  div_mono = mono-over;
  div_anti = anti-over;
}

left-over : (a b : Float) → is_nan a ≡ true → is_nan (over a b) ≡ true
unfolding over is_nan
left-over a b h = ground arith

right-over : (a b : Float) → is_nan b ≡ true → is_nan (over a b) ≡ true
unfolding over is_nan
right-over a b h = ground arith

pub platform-SpreadsNan : SpreadsNan platform
platform-SpreadsNan = record { div_left = left-over; div_right = right-over; atan_nan = λ a h. h }
