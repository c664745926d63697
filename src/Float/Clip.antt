-- ===== src/Float/Clip.antt =====
-- Values clipped by Python's min and max, whatever the arithmetic gives, NaN included.
use rvln.Prelude.{◌≡◌, false, arith}
use rvln.Float.{Float, zero_f, lt, abs, neg, is_nan, min, max}

pub min-slow : (v x : Float) → lt v (min v x) ≡ false
unfolding lt is_nan
min-slow v x = ground arith

pub min-max-forward :
    (v lo x : Float) → v.sign ≡ false → lo.sign ≡ false → lt (min v (max lo x)) zero_f ≡ false
unfolding lt is_nan
min-max-forward v lo x h k = ground arith

pub clip-gentle :
    (w x : Float) → w.sign ≡ false → is_nan w ≡ false → lt w (abs (max (neg w) (min w x))) ≡ false
unfolding lt is_nan
clip-gentle w x h k = ground arith

pub zero-slow : (v : Float) → v.sign ≡ false → lt v zero_f ≡ false
unfolding lt
zero-slow v h = ground arith
