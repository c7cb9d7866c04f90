-- ===== src/Digit/Entry.antt =====
-- `?number`: the test for a trailing point, and the number.
use post.Prelude.{
  ℤ, pos, negsuc, ◌+ℤ◌, ◌-ℤ◌, ◌==ℤ◌, ==ℤ-ne, Store, ℕ, suc, ◌^◌, ◌<◌, ◌≤◌, Bool, true, false, some,
  List, [], ◌∷◌, length, ◌≡◌, ◌≢◌, arith, ap, ◌∙◌,
}
use post.Number.{to_int32}
use post.Vm.{Vm, inc}
use post.Digit.{base, forth_qnumber}
use post.Digit.Value.{value}
use post.Digit.Numeral.{Reads, Digits, numeral, positional, signed, qsinglenumber-positional}
use post.Stack.View.{stack, top_at, under_at}

digit_point : (c d : ℕ) → value c ≡ some d → pos c ≢ pos 46
digit_point c d e = λ q. absurd (ground arith)

next_at : (a : ℤ) (n : ℕ) → a +ℤ pos (suc n) -ℤ pos 1 ≡ inc a +ℤ pos n -ℤ pos 1
next_at a n = ground arith

-- The last of the characters is no point.
last_digit :
    (b : ℕ) (m : Store) (a : ℤ) (c d : ℕ) (cs ds : List ℕ)
    → Reads m a (c ∷ cs)
    → Digits b (c ∷ cs) (d ∷ ds)
    → (m (a +ℤ pos (length (c ∷ cs)) -ℤ pos 1) ==ℤ pos 46) ≡ false
unfolding Reads Digits
last_digit b m a c d [] ds r h =
    let at : a +ℤ pos 1 -ℤ pos 1 ≡ a = ground arith in
    rw (at, r.0) (==ℤ-ne (pos c) (pos 46) (digit_point c d h.0))
last_digit b m a c d (c1 ∷ cs) [] r h = absurd (h.2)
last_digit b m a c d (c1 ∷ cs) (d1 ∷ ds) r h =
    ap (λ p. m p ==ℤ pos 46) (next_at a (suc (length cs)))
    ∙ last_digit b m (inc a) c1 d1 cs ds r.1 h.2

last_character :
    (b : ℕ) (m : Store) (neg : Bool) (a : ℤ) (c d : ℕ) (cs ds : List ℕ)
    → Reads m a (numeral neg c cs)
    → Digits b (c ∷ cs) (d ∷ ds)
    → (m (a +ℤ pos (length (numeral neg c cs)) -ℤ pos 1) ==ℤ pos 46) ≡ false
unfolding numeral Reads
last_character b m false a c d cs ds r h = last_digit b m a c d cs ds r h
last_character b m true a c d cs ds r h =
    ap (λ p. m p ==ℤ pos 46) (next_at a (suc (length cs))) ∙ last_digit b m (inc a) c d cs ds r.1 h

-- `?number` of a text of digits, with `-` before them or without, leaves its value as a 32-bit integer and
-- -1, in a base up to 36, where the digits stand for less than 2^53.
pub qnumber-positional :
    (v : Vm) (neg : Bool) (b c d : ℕ) (cs ds : List ℕ) (a : ℤ) (xs : List ℤ)
    → 1 ≤ b
    → b ≤ 36
    → v.m base ≡ pos b
    → Reads v.m a (numeral neg c cs)
    → Digits b (c ∷ cs) (d ∷ ds)
    → positional b 0 (d ∷ ds) < 2 ^ 53
    → stack v ≡ some (pos (length (numeral neg c cs)) ∷ a ∷ xs)
    → (v' : Vm) × (forth_qnumber v ≡ some v')
      × (stack v' ≡ some (negsuc 0 ∷ to_int32 (signed neg (positional b 0 (d ∷ ds))) ∷ xs))
unfolding forth_qnumber
qnumber-positional v neg b c d cs ds a xs one small radix r digits lt h =
    let n = pos (length (numeral neg c cs)) in
    let point : (v.m (v.s v.sp +ℤ v.tos -ℤ pos 1) ==ℤ pos 46) ≡ false =
      rw (top_at v.tos v.s v.sp n (a ∷ xs) h, under_at v.tos v.s v.sp n a xs h)
        (last_character b v.m neg a c d cs ds r digits) in
    let (u, read, left) =
      qsinglenumber-positional v neg b c d cs ds a xs one small radix r digits lt h in
    (u, rw point read, left)
