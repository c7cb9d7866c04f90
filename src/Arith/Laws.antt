-- ===== src/Arith/Laws.antt =====
-- What the arithmetic and comparison words leave on the data stack.
use post.Prelude.{
  ℤ, pos, negsuc, ◌-ℤ◌, ◌≤ℤ◌, ◌<ℤ◌, ltb_ℤ, ◌-◌, ◌^◌, ltb, some, List, ◌∷◌, ◌≡◌, arith, ap, ◌∙◌,
}
use post.Number.{to_uint32}
use post.Vm.{Vm, dec}
use post.Arith.{flag, binary, unsigned, is_within, forth_within, forth_uless}
use post.Stack.View.{stack, top_at, under_at, nip_at, retop_at}

-- The cells that 32-bit words hold.
pub record IsCell (a : ℤ) : Type 0 where
  pub at_least : negsuc (2 ^ 31 - 1) ≤ℤ a
  pub below_top : a <ℤ pos (2 ^ 31)

-- A word of two arguments replaces them by its result.
pub binary-stack :
    (f : ℤ → ℤ → ℤ) (v : Vm) (a b : ℤ) (xs : List ℤ)
    → stack v ≡ some (b ∷ a ∷ xs)
    → stack (binary f v) ≡ some (f a b ∷ xs)
binary-stack f v a b xs h =
    let top = top_at v.tos v.s v.sp b (a ∷ xs) h in
    let under = under_at v.tos v.s v.sp b a xs h in
    retop_at v.tos v.s (dec v.sp) b xs (f (v.s v.sp) v.tos) (nip_at v.tos v.s v.sp b a xs h)
    ∙ (λ i. some (f (under i) (top i) ∷ xs))

unsigned-to_uint32 : (a : ℤ) → IsCell a → unsigned a ≡ pos (to_uint32 a)
unsigned-to_uint32 a h = ground arith

is_within-circular :
    (x1 x2 x3 : ℤ)
    → IsCell x1
    → IsCell x2
    → IsCell x3
    → is_within x2 x1 x3 ≡ ltb (to_uint32 (x1 -ℤ x2)) (to_uint32 (x3 -ℤ x2))
is_within-circular x1 x2 x3 h1 h2 h3 = ground arith

-- `within` on 32-bit cells: the flag says whether the distance from x2 up to x1, counted round the
-- 2 ^ 32 words, is less than that from x2 to x3.
pub within-circular :
    (v : Vm) (x1 x2 x3 : ℤ) (xs : List ℤ)
    → IsCell x1
    → IsCell x2
    → IsCell x3
    → stack v ≡ some (x3 ∷ x2 ∷ x1 ∷ xs)
    → stack (forth_within v) ≡ some (flag (ltb (to_uint32 (x1 -ℤ x2)) (to_uint32 (x3 -ℤ x2))) ∷ xs)
unfolding forth_within
within-circular v x1 x2 x3 xs h1 h2 h3 h =
    let top = top_at v.tos v.s v.sp x3 (x2 ∷ x1 ∷ xs) h in
    let second = under_at v.tos v.s v.sp x3 x2 (x1 ∷ xs) h in
    let n1 = nip_at v.tos v.s v.sp x3 x2 (x1 ∷ xs) h in
    let third = under_at v.tos v.s (dec v.sp) x3 x1 xs n1 in
    let n2 = nip_at v.tos v.s (dec v.sp) x3 x1 xs n1 in
    let test = is_within (v.s v.sp) (v.s (dec v.sp)) v.tos in
    retop_at v.tos v.s (dec (dec v.sp)) x3 xs (flag test) n2
    ∙ (λ i. some (flag (is_within (second i) (third i) (top i)) ∷ xs))
    ∙ ap (λ b. some (flag b ∷ xs)) (is_within-circular x1 x2 x3 h1 h2 h3)

uless-words :
    (a b : ℤ)
    → IsCell a
    → IsCell b
    → ltb_ℤ (unsigned a) (unsigned b) ≡ ltb (to_uint32 a) (to_uint32 b)
uless-words a b h1 h2 = ground arith

-- `u<` compares two 32-bit cells by their bit patterns.
pub uless-unsigned :
    (v : Vm) (a b : ℤ) (xs : List ℤ)
    → IsCell a
    → IsCell b
    → stack v ≡ some (b ∷ a ∷ xs)
    → stack (forth_uless v) ≡ some (flag (ltb (to_uint32 a) (to_uint32 b)) ∷ xs)
unfolding forth_uless
uless-unsigned v a b xs h1 h2 h =
    let top = top_at v.tos v.s v.sp b (a ∷ xs) h in
    let under = under_at v.tos v.s v.sp b a xs h in
    let test = ltb_ℤ (unsigned (v.s v.sp)) (unsigned v.tos) in
    retop_at v.tos v.s (dec v.sp) b xs (flag test) (nip_at v.tos v.s v.sp b a xs h)
    ∙ (λ i. some (flag (ltb_ℤ (unsigned (under i)) (unsigned (top i))) ∷ xs))
    ∙ ap (λ c. some (flag c ∷ xs)) (uless-words a b h1 h2)
