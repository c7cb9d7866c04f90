-- ===== src/Prelude/Lists.antt =====
-- Lists measured and indexed by native numbers, under the library's names.
use Prim.Native.Nat.{ℕ, zero, suc, ◌+◌, ◌<◌}
use mathlib.Core.Path.{◌≡◌, ap}
use mathlib.Core.List.{List, [], ◌∷◌, ◌++◌}
use mathlib.Core.Option.{Option, none, some}
use native.Mathlib.Omega.{arith}

module _ {ℓ} {A : Type ℓ} where
  abbrev pub length : List A → ℕ
  length [] = 0
  length (x ∷ xs) = suc (length xs)

  abbrev pub get_elem? : List A → ℕ → Option A
  get_elem? [] i = none
  get_elem? (x ∷ xs) zero = some x
  get_elem? (x ∷ xs) (suc i) = get_elem? xs i

  -- A write out of bounds changes nothing.
  abbrev pub set : List A → ℕ → A → List A
  set [] i v = []
  set (x ∷ xs) zero v = v ∷ xs
  set (x ∷ xs) (suc i) v = x ∷ set xs i v

  abbrev pub take : ℕ → List A → List A
  take zero xs = []
  take (suc n) [] = []
  take (suc n) (x ∷ xs) = x ∷ take n xs

  abbrev pub drop : ℕ → List A → List A
  drop zero xs = xs
  drop (suc n) [] = []
  drop (suc n) (x ∷ xs) = drop n xs

  pub length-append : (xs ys : List A) → length (xs ++ ys) ≡ length xs + length ys
  length-append [] ys = omega arith
  length-append (x ∷ xs) ys = omega (arith, length-append xs ys)

module _ {ℓ} {A : Type ℓ} where
  -- The list without its item at a position.
  abbrev pub erase_at : ℕ → List A → List A
  erase_at n [] = []
  erase_at zero (x ∷ xs) = xs
  erase_at (suc n) (x ∷ xs) = x ∷ erase_at n xs

  -- Moving an item one place on and dropping it where it was drops its successor.
  pub erase_at-set :
      (xs : List A) (k : ℕ) (a : A)
      → get_elem? xs k ≡ some a
      → suc k < length xs
      → erase_at k (set xs (suc k) a) ≡ erase_at (suc k) xs
  erase_at-set [] k a h l = absurd (omega arith)
  erase_at-set (x ∷ []) k a h l = absurd (omega arith)
  erase_at-set (x ∷ y ∷ xs) zero a h l = ground arith
  erase_at-set (x ∷ y ∷ xs) (suc k) a h l =
      ap (λ zs. x ∷ zs) (erase_at-set (y ∷ xs) k a h (omega arith))
