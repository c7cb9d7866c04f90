-- ===== src/Stack/View.antt =====
-- The list that the data stack holds, top first. With `sp` items on the stack the top is in `tos`
-- and the others are in `s[sp]` down to `s[2]`; `s[1]` keeps the register's value from when the
-- stack was empty. There is no list where `sp` is negative.
use post.Prelude.{
  ℤ, pos, negsuc, Store, update, ℕ, zero, suc, ◌<◌, Option, none, some, List, [], ◌∷◌, length, ◌≡◌,
  refl, sym, ap, ◌∙◌, arith,
}
use post.Vm.{Vm, push, pop, dec}

abbrev pub below : Store → ℕ → List ℤ
below s zero = []
below s (suc zero) = []
below s (suc (suc n)) = s (pos (suc (suc n))) ∷ below s (suc n)

abbrev pub stack_at : ℤ → Store → ℤ → Option (List ℤ)
stack_at tos s (pos zero) = some []
stack_at tos s (pos (suc n)) = some (tos ∷ below s (suc n))
stack_at tos s (negsuc n) = none

abbrev pub stack : Vm → Option (List ℤ)
stack v = stack_at v.tos v.s v.sp

-- Writing at or above a position leaves what is below it.
pub below-update : (s : Store) (n i : ℕ) (x : ℤ) → n < i → below (update s (pos i) x) n ≡ below s n
below-update s zero i x h = refl
below-update s (suc zero) i x h = refl
below-update s (suc (suc n)) i x h = ground (arith, below-update s (suc n) i x)

pub length-below : (s : Store) (n : ℕ) → length (below s (suc n)) ≡ n
length-below s zero = refl
length-below s (suc n) = ap suc (length-below s n)

pub below-cons :
    (s : Store) (n : ℕ) (b : ℤ) (xs : List ℤ)
    → below s n ≡ b ∷ xs
    → (k : ℕ) × (n ≡ suc (suc k)) × (s (pos (suc (suc k))) ≡ b) × (below s (suc k) ≡ xs)
below-cons s zero b xs h = absurd (cc)
below-cons s (suc zero) b xs h = absurd (cc)
below-cons s (suc (suc k)) b xs h = (k, refl, ground arith, ground arith)

stack_at-cons :
    (t : ℤ) (s : Store) (sp : ℤ) (a : ℤ) (xs : List ℤ)
    → stack_at t s sp ≡ some (a ∷ xs)
    → (n : ℕ) × (sp ≡ pos (suc n)) × (t ≡ a) × (below s (suc n) ≡ xs)
stack_at-cons t s (pos zero) a xs h = absurd (cc)
stack_at-cons t s (pos (suc n)) a xs h = (n, refl, ground arith, ground arith)
stack_at-cons t s (negsuc n) a xs h = absurd (cc)

-- What a stack with a top item looks like in the registers.
pub stack-cons :
    (v : Vm) (a : ℤ) (xs : List ℤ)
    → stack v ≡ some (a ∷ xs)
    → (n : ℕ) × (v.sp ≡ pos (suc n)) × (v.tos ≡ a) × (below v.s (suc n) ≡ xs)
stack-cons v a xs h = stack_at-cons v.tos v.s v.sp a xs h

-- The same for a stack with two, three and four items; the last part is what lies beneath.
pub stack_two :
    (v : Vm) (a b : ℤ) (xs : List ℤ)
    → stack v ≡ some (a ∷ b ∷ xs)
    → (k : ℕ) × (v.sp ≡ pos (suc (suc k)))
      × (v.tos ≡ a)
      × (v.s (pos (suc (suc k))) ≡ b)
      × (below v.s (suc k) ≡ xs)
stack_two v a b xs h =
    let (n, p, q, d) = stack-cons v a (b ∷ xs) h in
    let (k, e, f, g) = below-cons v.s (suc n) b xs d in (k, p ∙ ap pos e, q, f, g)

pub stack_three :
    (v : Vm) (a b c : ℤ) (xs : List ℤ)
    → stack v ≡ some (a ∷ b ∷ c ∷ xs)
    → (k : ℕ) × (v.sp ≡ pos (suc (suc (suc k))))
      × (v.tos ≡ a)
      × (v.s (pos (suc (suc (suc k)))) ≡ b)
      × (v.s (pos (suc (suc k))) ≡ c)
      × (below v.s (suc k) ≡ xs)
stack_three v a b c xs h =
    let (n, p, q, f, d) = stack_two v a b (c ∷ xs) h in
    let (k, e, f', g) = below-cons v.s (suc n) c xs d in
    (k, p ∙ ap (λ j. pos (suc j)) e, q, ap (λ j. v.s (pos (suc j))) (sym e) ∙ f, f', g)

pub stack_four :
    (v : Vm) (a b c d : ℤ) (xs : List ℤ)
    → stack v ≡ some (a ∷ b ∷ c ∷ d ∷ xs)
    → (k : ℕ) × (v.sp ≡ pos (suc (suc (suc (suc k)))))
      × (v.tos ≡ a)
      × (v.s (pos (suc (suc (suc (suc k))))) ≡ b)
      × (v.s (pos (suc (suc (suc k)))) ≡ c)
      × (v.s (pos (suc (suc k))) ≡ d)
      × (below v.s (suc k) ≡ xs)
stack_four v a b c d xs h =
    let (n, p, q, f, g, u) = stack_three v a b c (d ∷ xs) h in
    let (k, e, f', u') = below-cons v.s (suc n) d xs u in
    (
      k,
      p ∙ ap (λ j. pos (suc (suc j))) e,
      q,
      ap (λ j. v.s (pos (suc (suc j)))) (sym e) ∙ f,
      ap (λ j. v.s (pos (suc j))) (sym e) ∙ g,
      f',
      u',
    )

stack_at-nil : (t : ℤ) (s : Store) (sp : ℤ) → stack_at t s sp ≡ some [] → sp ≡ pos 0
stack_at-nil t s (pos zero) h = refl
stack_at-nil t s (pos (suc n)) h = absurd (cc)
stack_at-nil t s (negsuc n) h = absurd (cc)

pub stack-nil : (v : Vm) → stack v ≡ some [] → v.sp ≡ pos 0
stack-nil v h = stack_at-nil v.tos v.s v.sp h

-- `s[++sp] = tos ; tos = x` pushes `x`.
pub stack-push :
    (v : Vm) (x : ℤ) (xs : List ℤ) → stack v ≡ some xs → stack (push x v) ≡ some (x ∷ xs)
unfolding push
stack-push v x [] h = ground (arith, stack-nil v h)
stack-push v x (a ∷ xs) h =
    let (n, p, q, e) = stack-cons v a xs h in
    ground (arith, below-update v.s (suc n) (suc (suc n)) v.tos)

-- `tos = s[sp--]` drops the top item.
pub stack-pop : (v : Vm) (x : ℤ) (xs : List ℤ) → stack v ≡ some (x ∷ xs) → stack (pop v) ≡ some xs
unfolding pop
stack-pop v x [] h = let (n, p, q, e) = stack-cons v x [] h in ground (arith, length-below v.s n)
stack-pop v x (b ∷ xs) h = let (k, p, q, e, f) = stack_two v x b xs h in ground arith

-- The steps that the other words are made of, on the three parts of a stack: what is in `tos`, what
-- is in `s[sp]`, and what a stack becomes when a word reads `s[sp--]`, sets `tos`, or overwrites
-- `s[sp]`.
pub top_at : (t : ℤ) (s : Store) (sp a : ℤ) (xs : List ℤ) → stack_at t s sp ≡ some (a ∷ xs) → t ≡ a
top_at t s sp a xs h = let (n, p, q, e) = stack_at-cons t s sp a xs h in q

pub retop_at :
    (t : ℤ) (s : Store) (sp a : ℤ) (xs : List ℤ) (x : ℤ)
    → stack_at t s sp ≡ some (a ∷ xs)
    → stack_at x s sp ≡ some (x ∷ xs)
retop_at t s sp a xs x h = let (n, p, q, e) = stack_at-cons t s sp a xs h in ground arith

pub under_at :
    (t : ℤ) (s : Store) (sp a b : ℤ) (xs : List ℤ) → stack_at t s sp ≡ some (a ∷ b ∷ xs) → s sp ≡ b
under_at t s sp a b xs h =
    let (n, p, q, d) = stack_at-cons t s sp a (b ∷ xs) h in
    let (k, e, f, g) = below-cons s (suc n) b xs d in ground arith

pub nip_at :
    (t : ℤ) (s : Store) (sp a b : ℤ) (xs : List ℤ)
    → stack_at t s sp ≡ some (a ∷ b ∷ xs)
    → stack_at t s (dec sp) ≡ some (a ∷ xs)
nip_at t s sp a b xs h =
    let (n, p, q, d) = stack_at-cons t s sp a (b ∷ xs) h in
    let (k, e, f, g) = below-cons s (suc n) b xs d in ground arith

pub set_under_at :
    (t : ℤ) (s : Store) (sp a b : ℤ) (xs : List ℤ) (y : ℤ)
    → stack_at t s sp ≡ some (a ∷ b ∷ xs)
    → stack_at t (update s sp y) sp ≡ some (a ∷ y ∷ xs)
set_under_at t s sp a b xs y h =
    let (n, p, q, d) = stack_at-cons t s sp a (b ∷ xs) h in
    let (k, e, f, g) = below-cons s (suc n) b xs d in
    ground (arith, below-update s (suc k) (suc (suc k)) y)

pop_at_zero : (t : ℤ) (s : Store) (sp a : ℤ) → stack_at t s sp ≡ some (a ∷ []) → sp ≡ pos 1
pop_at_zero t s sp a h =
    let (n, p, q, e) = stack_at-cons t s sp a [] h in ground (arith, length-below s n)

pub pop_at :
    (t : ℤ) (s : Store) (sp a : ℤ) (xs : List ℤ)
    → stack_at t s sp ≡ some (a ∷ xs)
    → stack_at (s sp) s (dec sp) ≡ some xs
pop_at t s sp a [] h = ground (arith, pop_at_zero t s sp a h)
pop_at t s sp a (b ∷ xs) h =
    let left = nip_at t s sp a b xs h in
    let found = under_at t s sp a b xs h in
    retop_at t s (dec sp) a xs (s sp) left ∙ ap (λ x. some (x ∷ xs)) found
