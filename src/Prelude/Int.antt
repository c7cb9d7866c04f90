-- ===== src/Prelude/Int.antt =====
-- Signed integers over the native numbers, under the library's names (its ℤ stands on the unary ℕ),
-- and stores that are indexed by them.
use Prim.Native.Nat.{ℕ, suc, ◌+◌, ◌-◌, ◌*◌, ◌≤◌, ◌<◌}
use mathlib.Core.Path.{◌≡◌}
use mathlib.Core.Logic.{◌≢◌, ◌↔◌}
use mathlib.Core.Bool.{Bool, true, false}
use native.Mathlib.Omega.{arith}
use post.Prelude.Tests.{ltb, leb, ◌==◌, if◌then◌else◌}

-- `negsuc n` is -(n + 1).
pub data ℤ : Type 0 where
  pos : ℕ → ℤ
  negsuc : ℕ → ℤ

abbrev pub pos_part : ℤ → ℕ
pos_part (pos n) = n
pos_part (negsuc n) = 0

abbrev pub neg_part : ℤ → ℕ
neg_part (pos n) = 0
neg_part (negsuc n) = suc n

-- a - b, as an integer.
abbrev pub sub_ℕ : ℕ → ℕ → ℤ
sub_ℕ a b = if leb b a then pos (a - b) else negsuc (b - a - 1)

infixl 65 ◌+ℤ◌ ◌-ℤ◌
infixl 70 ◌*ℤ◌
infix 50 ◌≤ℤ◌ ◌<ℤ◌ ◌==ℤ◌
abbrev pub ◌+ℤ◌ : ℤ → ℤ → ℤ
a +ℤ b = sub_ℕ (pos_part a + pos_part b) (neg_part a + neg_part b)

abbrev pub ◌-ℤ◌ : ℤ → ℤ → ℤ
a -ℤ b = sub_ℕ (pos_part a + neg_part b) (neg_part a + pos_part b)

unfoldable pub ◌*ℤ◌ : ℤ → ℤ → ℤ
a *ℤ b =
    sub_ℕ (pos_part a * pos_part b + neg_part a * neg_part b)
      (pos_part a * neg_part b + neg_part a * pos_part b)

abbrev pub ◌≤ℤ◌ : ℤ → ℤ → Type 0
a ≤ℤ b = pos_part a + neg_part b ≤ pos_part b + neg_part a

abbrev pub ◌<ℤ◌ : ℤ → ℤ → Type 0
a <ℤ b = pos_part a + neg_part b < pos_part b + neg_part a

abbrev pub ltb_ℤ : ℤ → ℤ → Bool
ltb_ℤ a b = ltb (pos_part a + neg_part b) (pos_part b + neg_part a)

abbrev pub leb_ℤ : ℤ → ℤ → Bool
leb_ℤ a b = leb (pos_part a + neg_part b) (pos_part b + neg_part a)

abbrev pub ◌==ℤ◌ : ℤ → ℤ → Bool
a ==ℤ b = (pos_part a + neg_part b) == (pos_part b + neg_part a)

pub ==ℤ_iff : (a b : ℤ) → ((a ==ℤ b) ≡ true) ↔ (a ≡ b)
==ℤ_iff a b = ground arith

-- A JavaScript array, which takes a value at every integer: only the named cell changes.
abbrev pub Store : Type 0
Store = ℤ → ℤ

abbrev pub update : Store → ℤ → ℤ → Store
update f i v j = if i ==ℤ j then v else f j

pub update_self : (f : Store) (i v : ℤ) → update f i v i ≡ v
update_self f i v = ground arith

pub update_ne : (f : Store) (i v j : ℤ) → i ≢ j → update f i v j ≡ f j
update_ne f i v j h = ground arith

pub inc-dec : (i : ℤ) → i +ℤ pos 1 -ℤ pos 1 ≡ i
inc-dec i = ground arith

pub dec-inc : (i : ℤ) → i -ℤ pos 1 +ℤ pos 1 ≡ i
dec-inc i = ground arith

pub suc_ne : (i : ℤ) → i +ℤ pos 1 ≢ i
suc_ne i = ground arith

pub suc_suc_ne : (i : ℤ) → i +ℤ pos 1 +ℤ pos 1 ≢ i
suc_suc_ne i = ground arith

pub suc_suc_suc_ne : (i : ℤ) → i +ℤ pos 1 +ℤ pos 1 +ℤ pos 1 ≢ i
suc_suc_suc_ne i = ground arith

pub ==ℤ-ne : (i j : ℤ) → i ≢ j → (i ==ℤ j) ≡ false
==ℤ-ne i j h = ground arith

pub pos_mul : (a b : ℕ) → pos a *ℤ pos b ≡ pos (a * b)
unfolding ◌*ℤ◌
pos_mul a b = ground arith
