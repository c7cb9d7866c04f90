-- ===== src/Number/Bits.antt =====
-- A mask of ones keeps the low bits.
use Prim.Native.Nat.{digits, min, bit_and, bit_and-bitwise}
use native.Mathlib.Nat.{pow-suc}
use post.Prelude.{
  ℤ, pos, negsuc, ℕ, zero, suc, ◌+◌, ◌-◌, ◌*◌, ◌/◌, ◌%◌, ◌^◌, ◌<◌, ◌≤◌, ◌≡◌, refl, arith, ap, ◌∙◌,
}
use post.Number.{js_and, of_word, to_int32}

-- The number whose lowest `k` bits are set.
abbrev pub ones : ℕ → ℕ
ones zero = 0
ones (suc k) = ones k * 2 + 1

-- The digit by digit conjunction with `k` ones, however many digits `n` it goes through.
masked_digits : (n k a : ℕ) → a ≤ n → a < 2 ^ k → digits (λ b. zero) min n a (ones k) ≡ a
masked_digits zero k zero bound small = refl
masked_digits zero k (suc a) bound small = absurd (omega arith)
masked_digits (suc n) k zero bound small = refl
masked_digits (suc n) zero (suc a) bound small = absurd (omega arith)
masked_digits (suc n) (suc k) (suc a) bound small =
    let half : (ones k * 2 + 1) / 2 ≡ ones k = omega arith in
    let rest : digits (λ b. zero) min n (suc a / 2) ((ones k * 2 + 1) / 2) ≡ suc a / 2 =
      ap (digits (λ b. zero) min n (suc a / 2)) half
      ∙ masked_digits n k (suc a / 2) (omega arith) (omega (arith, pow-suc 2 k)) in
    omega (arith, rest)

word_and-ones : (a : ℕ) → a < 2 ^ 32 → bit_and a (ones 32) ≡ a
word_and-ones a small = bit_and-bitwise a (ones 32) ∙ masked_digits a 32 a (omega arith) small

-- `x & 0xffffffff` is the 32-bit integer of `x`.
pub js_and-ones : (z : ℤ) → js_and z (pos 0xffff_ffff) ≡ to_int32 z
unfolding js_and
js_and-ones (pos n) = ap of_word (word_and-ones (n % 2 ^ 32) (omega arith))
js_and-ones (negsuc n) = ap of_word (word_and-ones (2 ^ 32 - 1 - n % 2 ^ 32) (omega arith))
