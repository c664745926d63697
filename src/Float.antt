-- ===== src/Float.antt =====
-- Python floats as IEEE 754 binary64 values: a sign bit and the 63 bits of exponent and
-- fraction. Comparisons, `abs`, `copysign`, `min` and `max` read the bits and are defined here.
-- Operations that round are fields of `Arith`, a parameter of the definitions that use them.
pub mod Order
pub mod Laws
pub mod Literals
pub mod Clip
use rvln.Prelude.{
  ℕ, ◌+◌, Bool, true, false, not, ◌&&◌, ltb, leb, ◌==◌, if◌then◌else◌, Result, ok, raise,
  zero_division, value_error,
}

pub record Float : Type 0 where
  pub sign : Bool
  pub mag : ℕ

-- The bits of infinity; above them stand the NaNs.
abbrev pub inf_mag : ℕ
inf_mag = 0x7FF0000000000000

abbrev pub zero_f : Float
zero_f = record { sign = false; mag = 0 }

abbrev pub one_f : Float
one_f = record { sign = false; mag = 0x3FF0000000000000 }

unfoldable pub is_nan : Float → Bool
is_nan x = ltb inf_mag x.mag

unfoldable pub is_finite : Float → Bool
is_finite x = ltb x.mag inf_mag

abbrev pub pos_part : Float → ℕ
pos_part x = if x.sign then 0 else x.mag

abbrev pub neg_part : Float → ℕ
neg_part x = if x.sign then x.mag else 0

-- `a < b`: false when either is NaN, and -0.0 equals 0.0.
unfoldable pub lt : Float → Float → Bool
unfolding is_nan
lt a b =
    not (is_nan a) && (not (is_nan b) && ltb (pos_part a + neg_part b) (pos_part b + neg_part a))

unfoldable pub le : Float → Float → Bool
unfolding is_nan
le a b =
    not (is_nan a) && (not (is_nan b) && leb (pos_part a + neg_part b) (pos_part b + neg_part a))

unfoldable pub eq : Float → Float → Bool
unfolding is_nan
eq a b =
    not (is_nan a) && (not (is_nan b) && (pos_part a + neg_part b) == (pos_part b + neg_part a))

abbrev pub abs : Float → Float
abs x = record x { sign = false }

abbrev pub neg : Float → Float
neg x = record x { sign = not x.sign }

abbrev pub copysign : Float → Float → Float
copysign x y = record x { sign = y.sign }

-- The sign of a product or a quotient.
abbrev pub xor_sign : Bool → Bool → Bool
xor_sign false s = s
xor_sign true s = not s

-- Python's `min(a, b)` and `max(a, b)` keep the first argument unless the second compares.
abbrev pub min : Float → Float → Float
min a b = if lt b a then b else a

abbrev pub max : Float → Float → Float
max a b = if lt a b then b else a

-- What the platform's arithmetic and libm compute.
pub record Arith : Type 0 where
  pub of_ℕ : ℕ → Float
  pub add : Float → Float → Float
  pub sub : Float → Float → Float
  pub mul : Float → Float → Float
  pub div : Float → Float → Float
  pub hypot : Float → Float → Float
  pub cos : Float → Float
  pub sin : Float → Float
  pub atan : Float → Float
  pub atan2 : Float → Float → Float

-- Python's `a / b` raises on a zero divisor.
unfoldable pub py_div : Arith → Float → Float → Result Float
unfolding eq
py_div m a b = if eq b zero_f then raise zero_division else ok (m.div a b)

abbrev pub is_infinite : Float → Bool
is_infinite x = x.mag == inf_mag

-- Python's `math.cos` and `math.sin` take any number but an infinity.
unfoldable pub of_angle : (Float → Float) → Float → Result Float
of_angle f x = if is_infinite x then raise value_error else ok (f x)
