-- ===== src/Arith/Tests.antt =====
-- Runs of the arithmetic words.
use post.Prelude.{
  ℤ, pos, negsuc, ◌-ℤ◌, ℕ, ◌+◌, ◌*◌, ◌%◌, ◌^◌, ◌<◌, ltb, some, List, [], ◌∷◌, ◌≡◌, refl, arith,
}
use post.Number.{bit_count, to_uint32, js_and, shift_left, js_add, round_double, js_sub}
use post.Vm.{push}
use post.Fixture.{with_stack, stack-with_stack, addresses}
use post.Arith.{flag, forth_within, forth_dplus}
use post.Arith.Division.{quotient}
use post.Arith.Long.{forth_umslashmod}
use post.Arith.Laws.{IsCell, within-circular}
use post.Arith.Double.{double, dplus-adds, dplus-loses-carry}
use post.Stack.View.{stack}

-- Quotients are rounded towards 0 ...
seven_by_two : quotient (pos 7) (pos 2) ≡ pos 3
unfolding quotient bit_count
seven_by_two = refl

minus_seven_by_two : quotient (negsuc 6) (pos 2) ≡ negsuc 2
unfolding quotient bit_count
minus_seven_by_two = refl

-- ... but a negative one that needs no rounding comes out one too great: -6 / 2 is -2 here.
minus_six_by_two : quotient (negsuc 5) (pos 2) ≡ negsuc 1
unfolding quotient bit_count
minus_six_by_two = refl

small : (n : ℕ) → n < 100 → IsCell (pos n)
small n h = record { at_least = omega arith; below_top = omega arith }

minus_one : IsCell (negsuc 0)
minus_one = record { at_least = omega arith; below_top = omega arith }

-- Is 1 from -1 up to 5?
abbrev within_items : List ℤ
within_items = pos 5 ∷ negsuc 0 ∷ pos 1 ∷ []

within-circular_example :
    stack (forth_within (with_stack addresses within_items))
    ≡ some (flag (ltb (to_uint32 (pos 1 -ℤ negsuc 0)) (to_uint32 (pos 5 -ℤ negsuc 0))) ∷ [])
within-circular_example =
    within-circular (with_stack addresses within_items) (pos 1) (negsuc 0) (pos 5) []
      (small 1 (omega arith)) minus_one (small 5 (omega arith))
      (stack-with_stack addresses within_items)

abbrev uless_items : List ℤ
uless_items = negsuc 0 ∷ pos 1 ∷ []

-- -1 and 3, as double-cell numbers: the low cells add up to more than 2 ^ 32.
abbrev sum_items : List ℤ
sum_items = pos 0 ∷ pos 3 ∷ negsuc 0 ∷ negsuc 0 ∷ []

dplus-adds_example :
    (high low : ℤ) × (stack (forth_dplus (with_stack addresses sum_items)) ≡ some (high ∷ low ∷ []))
    × (double high low ≡ (double (negsuc 0) (negsuc 0) + double (pos 0) (pos 3)) % 2 ^ 64)
dplus-adds_example =
    dplus-adds (with_stack addresses sum_items) (negsuc 0) (negsuc 0) (pos 0) (pos 3) [] minus_one
      minus_one (small 0 (omega arith)) (small 3 (omega arith)) (λ e. absurd (omega arith))
      (stack-with_stack addresses sum_items)

-- -1 and 1: the sum is not 0, for the high cells are -1 and 0.
abbrev lost_items : List ℤ
lost_items = pos 0 ∷ pos 1 ∷ negsuc 0 ∷ negsuc 0 ∷ []

dplus-loses-carry_example :
    (high low : ℤ) × (stack (forth_dplus (with_stack addresses lost_items))
      ≡ some (high ∷ low ∷ []))
    × (double high low ≡ (to_uint32 (negsuc 0) + to_uint32 (pos 0)) % 2 ^ 32 * 2 ^ 32)
dplus-loses-carry_example =
    dplus-loses-carry (with_stack addresses lost_items) (negsuc 0) (negsuc 0) (pos 0) (pos 1) []
      minus_one minus_one (small 0 (omega arith)) (small 1 (omega arith)) refl
      (stack-with_stack addresses lost_items)

-- 100 divided by 7.
hundred_by_seven :
    stack (forth_umslashmod (with_stack addresses (pos 7 ∷ pos 0 ∷ pos 100 ∷ [])))
    ≡ some (pos 14 ∷ pos 2 ∷ [])
unfolding forth_umslashmod push bit_count js_and shift_left js_add round_double js_sub
hundred_by_seven = refl
