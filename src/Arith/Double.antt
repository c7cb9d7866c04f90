-- ===== src/Arith/Double.antt =====
-- `d+` on double-cell numbers.
use post.Prelude.{
  ℤ, pos, update, ℕ, ◌+◌, ◌*◌, ◌%◌, ◌^◌, ◌<◌, ltb, some, List, ◌∷◌, ◌≡◌, ◌≢◌, arith, ap, ◌∙◌,
  if◌then◌else◌,
}
use mathlib.Core.Path.{ap₂}
use post.Number.{to_uint32, of_word, js_and, js_add}
use post.Number.Bits.{js_and-ones}
use post.Number.Round.{js_add-small}
use post.Vm.{Vm, dec}
use post.Arith.{unsigned, dplus_low, dplus_high, forth_dplus}
use post.Arith.Laws.{IsCell}
use post.Stack.View.{stack, top_at, under_at, nip_at, retop_at, set_under_at}

-- The 64-bit number of a high and a low cell.
abbrev pub double : (high low : ℤ) → ℕ
double high low = to_uint32 high * 2 ^ 32 + to_uint32 low

add_words : (a b : ℕ) → a < 2 ^ 33 → b < 2 ^ 33 → js_add (pos a) (pos b) ≡ pos (a + b)
add_words a b h k = js_add-small (pos a) (pos b) (ground arith) ∙ ground arith

to_uint32-of_word : (w : ℕ) → w < 2 ^ 32 → to_uint32 (of_word w) ≡ w
to_uint32-of_word w h = ground arith

masked : (n : ℕ) → to_uint32 (js_and (pos n) (pos 0xffff_ffff)) ≡ n % 2 ^ 32
masked n = ap to_uint32 (js_and-ones (pos n)) ∙ to_uint32-of_word (n % 2 ^ 32) (omega arith)

dplus_low-words :
    (a b : ℕ) → a < 2 ^ 32 → b < 2 ^ 32 → to_uint32 (dplus_low (pos a) (pos b)) ≡ (a + b) % 2 ^ 32
dplus_low-words a b h k = ground (arith, add_words a b (omega arith) (omega arith), masked (a + b))

dplus_high-words :
    (a b c d : ℕ)
    → a < 2 ^ 32
    → b < 2 ^ 32
    → c < 2 ^ 32
    → d < 2 ^ 32
    → to_uint32 (dplus_high (pos a) (pos b) (pos c) (pos d))
      ≡ (c + d + (if ltb (2 ^ 32) (a + b) then 1 else 0)) % 2 ^ 32
dplus_high-words a b c d h k l n = ground (
  arith,
  add_words a b (omega arith) (omega arith),
  add_words d c (omega arith) (omega arith),
  add_words (d + c) 1 (omega arith) (omega arith),
  masked (d + c),
  masked (d + c + 1),
)

unsigned-word : (a : ℤ) → IsCell a → unsigned a ≡ pos (to_uint32 a)
unsigned-word a h = ground arith

word-lt : (a : ℤ) → to_uint32 a < 2 ^ 32
word-lt a = ground arith

-- The cells that `d+` leaves.
dplus-stack :
    (v : Vm) (high1 low1 high2 low2 : ℤ) (xs : List ℤ)
    → stack v ≡ some (high2 ∷ low2 ∷ high1 ∷ low1 ∷ xs)
    → stack (forth_dplus v)
      ≡ some (
          dplus_high (unsigned low1) (unsigned low2) (unsigned high1) (unsigned high2)
          ∷ dplus_low (unsigned low1) (unsigned low2)
          ∷ xs)
unfolding forth_dplus
dplus-stack v high1 low1 high2 low2 xs h =
    let t = v.tos in
    let sp1 = dec v.sp in
    let sp2 = dec sp1 in
    let h2 = top_at t v.s v.sp high2 (low2 ∷ high1 ∷ low1 ∷ xs) h in
    let l2 = under_at t v.s v.sp high2 low2 (high1 ∷ low1 ∷ xs) h in
    let n1 = nip_at t v.s v.sp high2 low2 (high1 ∷ low1 ∷ xs) h in
    let h1 = under_at t v.s sp1 high2 high1 (low1 ∷ xs) n1 in
    let n2 = nip_at t v.s sp1 high2 high1 (low1 ∷ xs) n1 in
    let l1 = under_at t v.s sp2 high2 low1 xs n2 in
    let w = dplus_low (unsigned (v.s sp2)) (unsigned (v.s v.sp)) in
    let n3 = set_under_at t v.s sp2 high2 low1 xs w n2 in
    let hi =
      dplus_high (unsigned (v.s sp2)) (unsigned (v.s v.sp)) (unsigned (v.s sp1)) (unsigned t) in
    retop_at t (update v.s sp2 w) sp2 high2 (w ∷ xs) hi n3 ∙ (λ i. some (
      dplus_high (unsigned (l1 i)) (unsigned (l2 i)) (unsigned (h1 i)) (unsigned (h2 i))
      ∷ dplus_low (unsigned (l1 i)) (unsigned (l2 i))
      ∷ xs))

dplus-double :
    (high1 low1 high2 low2 : ℤ)
    → IsCell high1
    → IsCell low1
    → IsCell high2
    → IsCell low2
    → double
        (dplus_high (unsigned low1) (unsigned low2) (unsigned high1) (unsigned high2))
        (dplus_low (unsigned low1) (unsigned low2))
      ≡ (to_uint32 high1
            + to_uint32 high2
            + (if ltb (2 ^ 32) (to_uint32 low1 + to_uint32 low2) then 1 else 0))
          % 2 ^ 32
          * 2 ^ 32
        + (to_uint32 low1 + to_uint32 low2) % 2 ^ 32
dplus-double high1 low1 high2 low2 c1 c2 c3 c4 =
    rw
      (unsigned-word low1 c2, unsigned-word low2 c4, unsigned-word high1 c1, unsigned-word high2 c3)
      (ap₂ (λ (a b : ℕ). a * 2 ^ 32 + b)
        (dplus_high-words (to_uint32 low1) (to_uint32 low2) (to_uint32 high1) (to_uint32 high2)
          (word-lt low1) (word-lt low2) (word-lt high1) (word-lt high2))
        (dplus_low-words (to_uint32 low1) (to_uint32 low2) (word-lt low1) (word-lt low2)))

carry_sum :
    (a b c d : ℕ)
    → a < 2 ^ 32
    → b < 2 ^ 32
    → c < 2 ^ 32
    → d < 2 ^ 32
    → b + d ≢ 2 ^ 32
    → (a + c + (if ltb (2 ^ 32) (b + d) then 1 else 0)) % 2 ^ 32 * 2 ^ 32 + (b + d) % 2 ^ 32
      ≡ (a * 2 ^ 32 + b + (c * 2 ^ 32 + d)) % 2 ^ 64
carry_sum a b c d h1 h2 h3 h4 ne = ground arith

lost_carry :
    (a b c d : ℕ)
    → b + d ≡ 2 ^ 32
    → (a + c + (if ltb (2 ^ 32) (b + d) then 1 else 0)) % 2 ^ 32 * 2 ^ 32 + (b + d) % 2 ^ 32
      ≡ (a + c) % 2 ^ 32 * 2 ^ 32
lost_carry a b c d e = ground arith

-- `d+` adds two double-cell numbers of 32-bit cells modulo 2 ^ 64, if the unsigned low cells do not
-- add up to exactly 2 ^ 32.
pub dplus-adds :
    (v : Vm) (high1 low1 high2 low2 : ℤ) (xs : List ℤ)
    → IsCell high1
    → IsCell low1
    → IsCell high2
    → IsCell low2
    → to_uint32 low1 + to_uint32 low2 ≢ 2 ^ 32
    → stack v ≡ some (high2 ∷ low2 ∷ high1 ∷ low1 ∷ xs)
    → (high low : ℤ) × (stack (forth_dplus v) ≡ some (high ∷ low ∷ xs))
      × (double high low ≡ (double high1 low1 + double high2 low2) % 2 ^ 64)
dplus-adds v high1 low1 high2 low2 xs c1 c2 c3 c4 ne h = (
  _,
  _,
  dplus-stack v high1 low1 high2 low2 xs h,
  dplus-double high1 low1 high2 low2 c1 c2 c3 c4
      ∙ carry_sum (to_uint32 high1) (to_uint32 low1) (to_uint32 high2) (to_uint32 low2)
          (word-lt high1) (word-lt low1) (word-lt high2) (word-lt low2) ne,
)

-- Where the unsigned low cells of two double-cell numbers of 32-bit cells add up to exactly 2 ^ 32,
-- `d+` loses the carry into the high cell: the result has the sum of the high cells and a low cell
-- that stands for 0.
pub dplus-loses-carry :
    (v : Vm) (high1 low1 high2 low2 : ℤ) (xs : List ℤ)
    → IsCell high1
    → IsCell low1
    → IsCell high2
    → IsCell low2
    → to_uint32 low1 + to_uint32 low2 ≡ 2 ^ 32
    → stack v ≡ some (high2 ∷ low2 ∷ high1 ∷ low1 ∷ xs)
    → (high low : ℤ) × (stack (forth_dplus v) ≡ some (high ∷ low ∷ xs))
      × (double high low ≡ (to_uint32 high1 + to_uint32 high2) % 2 ^ 32 * 2 ^ 32)
dplus-loses-carry v high1 low1 high2 low2 xs c1 c2 c3 c4 e h = (
  _,
  _,
  dplus-stack v high1 low1 high2 low2 xs h,
  dplus-double high1 low1 high2 low2 c1 c2 c3 c4
      ∙ lost_carry (to_uint32 high1) (to_uint32 low1) (to_uint32 high2) (to_uint32 low2) e,
)
