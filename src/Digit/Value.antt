-- ===== src/Digit/Value.antt =====
-- Which characters `digit` takes for digits.
use post.Prelude.{
  ℤ, pos, negsuc, ◌-ℤ◌, ltb_ℤ, leb_ℤ, ℕ, ◌-◌, ◌^◌, ◌<◌, ◌≤◌, ◌&&◌, ltb, leb, Bool, Option, none,
  some, List, ◌∷◌, if◌then◌else◌, ◌≡◌, arith, ap, ◌∙◌,
}
use post.Number.{js_sub, magnitude}
use post.Number.Round.{js_sub-small}
use post.Vm.{Vm}
use post.Digit.{base, digit, skip_to_letters, skip_to_small, forth_digit}
use post.Stack.View.{stack, top_at, retop_at}

abbrev pub between : ℕ → ℕ → ℕ → Bool
between a b c = leb a c && leb c b

-- `0` to `9`, `A` to `Z` and `a` to `z` have the values 0 to 9, 10 to 35 and 10 to 35.
abbrev pub value : ℕ → Option ℕ
value c =
    if between b'0' b'9' c
    then some (c - 48)
    else if between b'A' b'Z' c
    then some (c - 55)
    else if between b'a' b'z' c
    then some (c - 87)
    else none

abbrev pub in_base : ℕ → Option ℕ → ℤ
in_base b none = negsuc 0
in_base b (some n) = if ltb n b then pos n else negsuc 0

-- What the two steps make of a character code.
abbrev letters : ℤ → ℤ
letters t = if ltb_ℤ (pos 9) t then (if ltb_ℤ t (pos 17) then negsuc 7 else t -ℤ pos 7) else t

abbrev small : ℤ → ℤ
small t = if ltb_ℤ (pos 41) t then t -ℤ pos 32 else t

skip_to_letters-exact : (t : ℤ) → magnitude t < 2 ^ 40 → skip_to_letters t ≡ letters t
skip_to_letters-exact t h =
    ground
      (arith, js_sub-small t (pos 7) (ground arith), js_sub-small (negsuc 0) (pos 7) (omega arith))

skip_to_small-exact : (t : ℤ) → magnitude t < 2 ^ 41 → skip_to_small t ≡ small t
skip_to_small-exact t h = ground (arith, js_sub-small t (pos 32) (ground arith))

abbrev in_radix : ℕ → ℤ → ℤ
in_radix b t = if leb_ℤ (pos 0) t then (if ltb_ℤ t (pos b) then t else negsuc 0) else negsuc 0

steps-value :
    (b c : ℕ) → b ≤ 36 → in_radix b (small (letters (pos c -ℤ pos 48))) ≡ in_base b (value c)
steps-value b c h = ground arith

digit-value : (b c : ℕ) → b ≤ 36 → c < 2 ^ 32 → digit (pos b) (pos c) ≡ in_base b (value c)
digit-value b c h k =
    let t = pos c -ℤ pos 48 in
    let e1 : js_sub (pos c) (pos 48) ≡ t = js_sub-small (pos c) (pos 48) (ground arith) in
    let e2 : skip_to_letters t ≡ letters t = skip_to_letters-exact t (ground arith) in
    let e3 : skip_to_small (letters t) ≡ small (letters t) =
      skip_to_small-exact (letters t) (ground arith) in
    ap (λ x. in_radix b (skip_to_small (skip_to_letters x))) e1
    ∙ ap (λ x. in_radix b (skip_to_small x)) e2
    ∙ ap (in_radix b) e3
    ∙ steps-value b c h

-- `digit` replaces a character code by its value if it is a digit in the base, which is 36 at most, and
-- by -1 otherwise.
pub digit-stack :
    (v : Vm) (b c : ℕ) (xs : List ℤ)
    → b ≤ 36
    → c < 2 ^ 32
    → v.m base ≡ pos b
    → stack v ≡ some (pos c ∷ xs)
    → stack (forth_digit v) ≡ some (in_base b (value c) ∷ xs)
unfolding forth_digit
digit-stack v b c xs small_base code in_memory h =
    retop_at v.tos v.s v.sp (pos c) xs (digit (v.m base) v.tos) h
    ∙ (λ i. some (digit (in_memory i) (top_at v.tos v.s v.sp (pos c) xs h i) ∷ xs))
    ∙ ap (λ r. some (r ∷ xs)) (digit-value b c small_base code)
