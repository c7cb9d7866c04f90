-- ===== src/Number/Round.antt =====
-- Numbers of 53 bits are not rounded.
use native.Mathlib.Nat.{pow-suc}
use post.Prelude.{
  ℤ, pos, negsuc, ◌+ℤ◌, ◌-ℤ◌, ℕ, zero, suc, ◌/◌, ◌^◌, ◌<◌, ◌≤◌, ◌≡◌, arith, ap, le→leb,
}
use post.Number.{bit_count, round53, round_double, js_add, js_sub, magnitude, max_bits}

bit_count-le : (fuel n k : ℕ) → n < 2 ^ k → bit_count fuel n ≤ k
unfolding bit_count
bit_count-le zero n k h = omega arith
bit_count-le (suc fuel) n zero h = ground arith
bit_count-le (suc fuel) n (suc k) h = ground (arith, pow-suc 2 k, bit_count-le fuel (n / 2) k)

round53-small : (n : ℕ) → n < 2 ^ 53 → round53 n ≡ n
unfolding round53
round53-small n h = rw (le→leb _ _ (bit_count-le max_bits n 53 h))

-- A whole number below 2 ^ 53 is a double.
pub round_double-small : (z : ℤ) → magnitude z < 2 ^ 53 → round_double z ≡ z
unfolding round_double
round_double-small (pos n) h = ap pos (round53-small n (omega arith))
round_double-small (negsuc n) h = rw (round53-small (suc n) (omega arith)) (ground arith)

pub js_add-small : (a b : ℤ) → magnitude (a +ℤ b) < 2 ^ 53 → js_add a b ≡ a +ℤ b
unfolding js_add
js_add-small a b h = round_double-small (a +ℤ b) h

pub js_sub-small : (a b : ℤ) → magnitude (a -ℤ b) < 2 ^ 53 → js_sub a b ≡ a -ℤ b
unfolding js_sub
js_sub-small a b h = round_double-small (a -ℤ b) h
