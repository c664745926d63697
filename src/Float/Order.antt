-- ===== src/Float/Order.antt =====
-- Laws of the comparisons: they follow from the bits.
use rvln.Prelude.{◌≡◌, refl, true, false, arith}
use rvln.Float.{Float, zero_f, is_nan, is_finite, lt, le, eq, abs, min, max}

pub le_trans : (a b c : Float) → le a b ≡ true → le b c ≡ true → le a c ≡ true
unfolding le
le_trans a b c h k = ground arith

pub le_of_not-le :
    (a b : Float) → is_nan a ≡ false → is_nan b ≡ false → le a b ≡ false → le b a ≡ true
unfolding le
le_of_not-le a b h k p = ground arith

-- `max(lo, min(hi, x))` lies between the limits, whatever `x` is, NaN included.
pub clip_bounds :
    (lo hi x : Float)
    → le lo hi ≡ true
    → (le lo (max lo (min hi x)) ≡ true) × (le (max lo (min hi x)) hi ≡ true)
unfolding le lt
clip_bounds lo hi x h = ground arith

pub eq-zero_of_lt : (a : Float) → lt zero_f a ≡ true → eq a zero_f ≡ false
unfolding lt eq
eq-zero_of_lt a h = ground arith

pub lt-le_trans : (a b c : Float) → lt a b ≡ true → le b c ≡ true → lt a c ≡ true
unfolding lt le
lt-le_trans a b c h k = ground arith

pub number_of_finite : (a : Float) → is_finite a ≡ true → is_nan a ≡ false
unfolding is_finite is_nan
number_of_finite a h = ground arith

pub finite-abs : (a : Float) → is_finite a ≡ true → is_finite (abs a) ≡ true
unfolding is_finite
finite-abs a h = h

pub le_of_not-le-abs :
    (a b : Float)
    → is_finite a ≡ true
    → is_finite b ≡ true
    → le (abs a) b ≡ false
    → le b (abs a) ≡ true
unfolding le is_finite is_nan
le_of_not-le-abs a b h k p = ground arith

pub eq-zero_of_lt-abs : (a : Float) → lt zero_f (abs a) ≡ true → eq a zero_f ≡ false
unfolding lt eq
eq-zero_of_lt-abs a h = ground arith

pub not-lt-zero : (a : Float) → a.sign ≡ false → lt a zero_f ≡ false
unfolding lt
not-lt-zero a h = ground arith

pub le-refl_of_finite : (a : Float) → is_finite a ≡ true → le a a ≡ true
unfolding le is_finite is_nan
le-refl_of_finite a h = ground arith

pub finite_of_le : (a b : Float) → is_finite b ≡ true → le (abs a) b ≡ true → is_finite a ≡ true
unfolding le is_finite
finite_of_le a b h k = ground arith

pub abs_of_pos : (a : Float) → a.sign ≡ false → abs a ≡ a
abs_of_pos a h = ground arith

-- what is not below a positive number is not zero
pub lt-zero_of_not-le :
    (a b : Float)
    → is_finite a ≡ true
    → lt zero_f b ≡ true
    → le (abs a) b ≡ false
    → lt zero_f (abs a) ≡ true
unfolding le lt is_finite is_nan
lt-zero_of_not-le a b h k p = ground arith

pub eq-zero-abs : (a : Float) → lt zero_f (abs a) ≡ true → eq (abs a) zero_f ≡ false
unfolding lt eq
eq-zero-abs a h = ground arith

pub number_of_le : (a b : Float) → le a b ≡ true → is_nan b ≡ false
unfolding le
number_of_le a b h = ground arith

pub le_of_lt : (a b : Float) → lt a b ≡ true → le a b ≡ true
unfolding lt le
le_of_lt a b h = ground arith

pub milli-pos : lt zero_f (record { sign = false; mag = 0x3F50624DD2F1A9FC }) ≡ true
unfolding lt
milli-pos = refl

pub finite_of_abs : (a : Float) → is_finite (abs a) ≡ true → is_finite a ≡ true
unfolding is_finite
finite_of_abs a h = h

pub zero-le : (a : Float) → a.sign ≡ false → is_finite a ≡ true → le zero_f a ≡ true
unfolding le is_finite is_nan
zero-le a h k = ground arith

-- A number that is zero lies within every positive bound.
pub eq-zero_of_not-lt-abs :
    (a b : Float) → lt zero_f b ≡ true → lt (abs a) b ≡ false → eq a zero_f ≡ false
unfolding lt eq
eq-zero_of_not-lt-abs a b h k = ground arith
