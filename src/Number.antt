-- ===== src/Number.antt =====
-- The numbers of JavaScript on the integers that the machine computes with: a result is rounded to
-- 53 bits, and the bitwise operators go through 32-bit integers.
pub mod Bits
pub mod Round
use Prim.Native.Nat.{bit_and, bit_or, bit_xor}
use post.Prelude.{
  ℤ, pos, negsuc, ◌+ℤ◌, ◌-ℤ◌, ◌*ℤ◌, sub_ℕ, ltb_ℤ, pos_part, neg_part, ℕ, zero, suc, ◌+◌, ◌-◌, ◌*◌,
  ◌/◌, ◌%◌, ◌^◌, ltb, leb, ◌==◌, if◌then◌else◌, Bool,
}

-- `ToUint32`, and the 32-bit integer of a bit pattern.
abbrev pub to_uint32 : ℤ → ℕ
to_uint32 (pos n) = n % 2 ^ 32
to_uint32 (negsuc n) = 2 ^ 32 - 1 - n % 2 ^ 32

abbrev pub of_word : ℕ → ℤ
of_word w = if ltb w (2 ^ 31) then pos w else negsuc (2 ^ 32 - 1 - w)

abbrev pub to_int32 : ℤ → ℤ
to_int32 z = of_word (to_uint32 z)

unfoldable pub js_and : ℤ → ℤ → ℤ
js_and a b = of_word (bit_and (to_uint32 a) (to_uint32 b))

unfoldable pub js_or : ℤ → ℤ → ℤ
js_or a b = of_word (bit_or (to_uint32 a) (to_uint32 b))

unfoldable pub js_xor : ℤ → ℤ → ℤ
js_xor a b = of_word (bit_xor (to_uint32 a) (to_uint32 b))

-- `a << b`, `a >> b` and `a >>> b`
unfoldable pub shift_left : ℤ → ℤ → ℤ
shift_left a b = of_word (to_uint32 a * 2 ^ (to_uint32 b % 32) % 2 ^ 32)

abbrev pub div_floor : ℤ → ℕ → ℤ
div_floor (pos n) k = pos (n / k)
div_floor (negsuc n) k = negsuc (n / k)

unfoldable pub shift_right : ℤ → ℤ → ℤ
shift_right a b = div_floor (to_int32 a) (2 ^ (to_uint32 b % 32))

unfoldable pub shift_right_unsigned : ℤ → ℤ → ℤ
shift_right_unsigned a b = pos (to_uint32 a / 2 ^ (to_uint32 b % 32))

-- The bits of a number. The fuel is more than the bits of any number that occurs: a double stays
-- below 2 ^ 1024, and is scaled by 2 ^ 1075 at most.
unfoldable pub bit_count : ℕ → ℕ → ℕ
bit_count zero n = 0
bit_count (suc fuel) n = let rest = bit_count fuel (n / 2) in if n == 0 then 0 else suc rest

abbrev pub max_bits : ℕ
max_bits = 4096

-- The nearest number of 53 bits, at a tie the even one.
unfoldable pub round53 : ℕ → ℕ
round53 n =
    let bits = bit_count max_bits n in
    let p = 2 ^ (bits - 53) in
    let q = n / p in
    let r = n % p in
    let up : ℕ = if ltb p (2 * r) then 1 else if 2 * r == p then q % 2 else 0 in
    if leb bits 53 then n else (q + up) * p

abbrev pub negate : ℕ → ℤ
negate n = sub_ℕ 0 n

unfoldable pub round_double : ℤ → ℤ
unfolding round53
round_double (pos n) = pos (round53 n)
round_double (negsuc n) = negate (round53 (suc n))

-- `a + b`, `a - b` and `a * b`
unfoldable pub js_add : ℤ → ℤ → ℤ
js_add a b = round_double (a +ℤ b)

unfoldable pub js_sub : ℤ → ℤ → ℤ
js_sub a b = round_double (a -ℤ b)

unfoldable pub js_mul : ℤ → ℤ → ℤ
js_mul a b = round_double (a *ℤ b)

abbrev pub magnitude : ℤ → ℕ
magnitude a = pos_part a + neg_part a

-- `a % b` for `b` not 0: the remainder has the sign of `a`.
unfoldable pub js_rem : ℤ → ℤ → ℤ
js_rem a b = let r = magnitude a % magnitude b in if ltb_ℤ a (pos 0) then negate r else pos r

-- A double that need not be whole, as a multiple of 2 ^ -1075.
abbrev pub unit : ℕ
unit = 2 ^ 1075

-- `a / b` for `b` not 0, in units. The last bit stands for all that the division leaves.
unfoldable pub js_quotient : ℤ → ℤ → ℤ
js_quotient a b =
    let n = magnitude a * 2 ^ 1074 in
    let d = magnitude b in
    let sticky : ℕ = if n % d == 0 then 0 else 1 in
    let q = round53 (2 * (n / d) + sticky) in
    if ltb_ℤ a (pos 0)
    then (if ltb_ℤ b (pos 0) then pos q else negate q)
    else if ltb_ℤ b (pos 0)
    then negate q
    else pos q

-- `floor`, on a number of units.
unfoldable pub js_floor : ℤ → ℤ
js_floor (pos n) = pos (n / unit)
js_floor (negsuc n) = negsuc (n / unit)
