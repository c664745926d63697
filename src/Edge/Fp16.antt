-- ===== src/Edge/Fp16.antt =====
-- src/rvln_proto/rvln_proto/conversions.py: little-endian half-precision bytes to floats.
use rvln.Prelude.{
  ℕ, zero, suc, ◌+◌, ◌-◌, ◌*◌, ◌/◌, ◌%◌, List, [], ◌∷◌, ltb, ◌==◌, if◌then◌else◌, Result, ok, raise,
  value_error, ◌>>=◌,
}
use Prim.Native.Nat.{◌^◌}
use rvln.Float.{Float, inf_mag}

-- The exponent of the leading bit of a fraction below 2 ^ 10.
leading : ℕ → ℕ → ℕ
leading zero n = 0
leading (suc k) n = let rest = leading k n in if ltb n (2 ^ suc k) then rest else suc k

-- The value of a half with the bits `h`, exactly, in double precision.
unfoldable pub half_to_float : ℕ → Float
unfolding leading
half_to_float h =
    let exponent = h / 2 ^ 10 % 32 in
    let fraction = h % 2 ^ 10 in
    let k = leading 9 fraction in
    record {
      sign = h / 2 ^ 15 % 2 == 1;
      mag =
          if exponent == 31
          then inf_mag + fraction * 2 ^ 42
          else if ltb 0 exponent
          then (exponent + 1008) * 2 ^ 52 + fraction * 2 ^ 42
          else if fraction == 0
          then 0
          else (999 + k) * 2 ^ 52 + (fraction - 2 ^ k) * 2 ^ (52 - k);
    }

-- `np.frombuffer` refuses a buffer that is no whole number of halves.
unfoldable pub fp16_bytes_to_float32_list : List ℕ → Result (List Float)
fp16_bytes_to_float32_list [] = ok []
fp16_bytes_to_float32_list (b ∷ []) = raise value_error
fp16_bytes_to_float32_list (low ∷ high ∷ raw) = do
  rest ← fp16_bytes_to_float32_list raw
  ok (half_to_float (low + 256 * high) ∷ rest)
