-- ===== src/Arith/Long.antt =====
-- The words that divide double-cell numbers: `um/mod` and `ud/mod`.
use post.Prelude.{ℤ, pos, ◌==ℤ◌, leb_ℤ, update, ℕ, zero, suc, ◌^◌, Bool, not, if◌then◌else◌}
use post.Number.{js_and, js_add, js_sub, shift_left}
use post.Vm.{Vm, inc, dec}

-- `divbit` is 2 ^ n for n + 1 bits that are left, and 0 for none.
abbrev has_bit : ℤ → ℕ → Bool
has_bit a n = not (js_and a (pos (2 ^ n)) ==ℤ pos 0)

-- The first loop: the bits that are left where the divisor has a 0.
first_zero : ℕ → ℤ → ℕ
first_zero zero tos = zero
first_zero (suc n) tos = let later = first_zero n tos in if has_bit tos n then later else suc n

-- One round on `quotient` and `remainder`.
abbrev pub Parts : Type 0
Parts = ℤ × ℤ

umslashmod_round : (tos divident : ℤ) → ℕ → Parts → Parts
umslashmod_round tos divident n (quotient, remainder) =
    let r1 = shift_left remainder (pos 1) in
    let r2 = if has_bit divident n then js_add r1 (pos 1) else r1 in
    let q = shift_left quotient (pos 1) in
    if leb_ℤ tos r2 then (js_add q (pos 1), js_sub r2 tos) else (q, r2)

umslashmod_rounds : (tos divident : ℤ) → ℕ → Parts → Parts
unfolding umslashmod_round
umslashmod_rounds tos divident zero p = p
umslashmod_rounds tos divident (suc n) p =
    umslashmod_rounds tos divident n (umslashmod_round tos divident n p)

unfoldable pub forth_umslashmod : Vm → Vm
unfolding first_zero umslashmod_rounds
forth_umslashmod v =
    let divbits = if v.tos ==ℤ pos 0 then zero else first_zero 32 v.tos in
    let sp1 = dec v.sp in
    let p = umslashmod_rounds v.tos (v.s v.sp) divbits (pos 0, pos 0) in
    let (quotient, remainder) = umslashmod_rounds v.tos (v.s sp1) 32 p in
    record v { s = update v.s sp1 remainder; tos = quotient; sp = sp1 }

pub forth_udslashmod : Vm → Vm
unfolding forth_umslashmod
forth_udslashmod v =
    let v1 = record v { w = v.tos; s = update v.s (inc v.sp) (pos 0); sp = inc v.sp } in
    let v2 = forth_umslashmod v1 in
    let s3 = update v2.s (inc v2.sp) v2.w in
    let v3 = record v2 { s = s3; w = v2.tos; tos = s3 (inc v2.sp) } in
    let v4 = forth_umslashmod v3 in
    record v4 { s = update v4.s (inc v4.sp) v4.tos; sp = inc v4.sp; tos = v4.w }
