-- ===== src/Stack/Roll.antt =====
-- The operators that take a position on the stack: `pick`, `roll` and `depth`.
use post.Prelude.{
  ℤ, pos, ◌-ℤ◌, Store, update, ℕ, zero, suc, ◌-◌, ◌<◌, some, List, [], ◌∷◌, length, get_elem?, set,
  erase_at, erase_at-set, ◌≡◌, refl, sym, ap, ◌∙◌, ◌≡⟨◌⟩◌, ◌∎, arith,
}
use mathlib.Core.Path.{ap₂}
use post.Vm.{Vm, inc, dec}
use post.Stack.{forth_pick, forth_roll, forth_depth, roll_loop}
use post.Stack.View.{below, stack_at, stack, below-update, length-below, stack-cons, stack-nil}

-- The item at a position of the list stands that many cells below the top one.
get_elem?-below :
    (s : Store) (n k : ℕ) → k < n → get_elem? (below s (suc n)) k ≡ some (s (pos (suc n - k)))
get_elem?-below s zero k h = absurd (omega arith)
get_elem?-below s (suc n) zero h = ap (λ (i : ℕ). some (s (pos i))) (omega arith)
get_elem?-below s (suc n) (suc k) h =
    get_elem?-below s n k (omega arith) ∙ ap (λ (i : ℕ). some (s (pos i))) (omega arith)

below-update-set :
    (s : Store) (n k : ℕ) (x : ℤ)
    → k < n
    → below (update s (pos (suc n - k)) x) (suc n) ≡ set (below s (suc n)) k x
below-update-set s zero k x h = absurd (omega arith)
below-update-set s (suc n) zero x h =
    let i : suc (suc n) - 0 ≡ suc (suc n) = omega arith in
    ground (arith, below-update s (suc n) (suc (suc n)) x)
below-update-set s (suc n) (suc k) x h =
    let i : suc (suc n) - suc k ≡ suc n - k = omega arith in
    ap (λ i. below (update s (pos i) x) (suc (suc n))) i ∙ ground (arith, below-update-set s n k x)

lt_of_get_elem? : (s : Store) (n k : ℕ) (x : ℤ) → get_elem? (below s (suc n)) k ≡ some x → k < n
lt_of_get_elem? s zero zero x h = absurd (cc)
lt_of_get_elem? s zero (suc k) x h = absurd (cc)
lt_of_get_elem? s (suc n) zero x h = omega arith
lt_of_get_elem? s (suc n) (suc k) x h = omega (arith, lt_of_get_elem? s n k x h)

-- An item of the list, and its cell.
item-below :
    (s : Store) (n k : ℕ) (x : ℤ) (xs : List ℤ)
    → below s (suc n) ≡ xs
    → get_elem? xs k ≡ some x
    → (k < n) × (s (pos (suc n - k)) ≡ x)
item-below s n k x xs e g =
    let g' : get_elem? (below s (suc n)) k ≡ some x = ap (λ ys. get_elem? ys k) e ∙ g in
    let inside = lt_of_get_elem? s n k x g' in (inside, cc (g', get_elem?-below s n k inside))

sub-suc : (n k : ℕ) → k < n → pos (suc n) -ℤ pos (suc k) ≡ pos (n - k)
sub-suc n k h = ground arith

below-roll_loop :
    (u n : ℕ) (s : Store)
    → u < n
    → below (roll_loop u (pos (suc n)) s) n ≡ erase_at u (below s (suc n))
unfolding roll_loop
below-roll_loop zero (suc n) s h = refl
below-roll_loop zero zero s h = absurd (omega arith)
below-roll_loop (suc k) n s h =
    let x = s (pos (suc n - k)) in
    below (roll_loop (suc k) (pos (suc n)) s) n
    ≡⟨ ap (λ i. below (roll_loop k (pos (suc n)) (update s i (s (inc i)))) n)
        (sub-suc n k (omega arith)) ⟩
      below (roll_loop k (pos (suc n)) (update s (pos (n - k)) (s (inc (pos (n - k)))))) n
    ≡⟨ ap (λ j. below (roll_loop k (pos (suc n)) (update s (pos (n - k)) (s j))) n) (ground arith) ⟩
      below (roll_loop k (pos (suc n)) (update s (pos (n - k)) x)) n
    ≡⟨ below-roll_loop k n (update s (pos (n - k)) x) (omega arith) ⟩
      erase_at k (below (update s (pos (n - k)) x) (suc n))
    ≡⟨ ap (λ i. erase_at k (below (update s (pos i) x) (suc n))) (omega arith) ⟩
      erase_at k (below (update s (pos (suc n - suc k)) x) (suc n))
    ≡⟨ ap (erase_at k) (below-update-set s n (suc k) x h) ⟩
      erase_at k (set (below s (suc n)) (suc k) x)
    ≡⟨ erase_at-set (below s (suc n)) k x (get_elem?-below s n k (omega arith))
        (omega (arith, length-below s n)) ⟩
      erase_at (suc k) (below s (suc n)) ∎

stack_at-pos :
    (t : ℤ) (s : Store) (n : ℕ) (sp : ℤ)
    → sp ≡ pos n
    → 0 < n
    → stack_at t s sp ≡ some (t ∷ below s n)
stack_at-pos t s zero sp p h = absurd (omega arith)
stack_at-pos t s (suc n) sp p h = ap (stack_at t s) p

-- Where the top of the stack gives a position that the items beneath it have, counted from 0,
-- `pick` replaces it by a copy of the item there.
pub pick-stack :
    (v : Vm) (u : ℕ) (x : ℤ) (xs : List ℤ)
    → stack v ≡ some (pos u ∷ xs)
    → get_elem? xs u ≡ some x
    → stack (forth_pick v) ≡ some (x ∷ xs)
unfolding forth_pick
pick-stack v u x xs h g =
    let (n, p, q, e) = stack-cons v (pos u) xs h in
    let (inside, found) = item-below v.s n u x xs e g in
    let place : v.sp -ℤ v.tos ≡ pos (suc n - u) = ground arith in ground arith

-- `depth` pushes the number of items on the stack.
pub depth-stack :
    (v : Vm) (xs : List ℤ) → stack v ≡ some xs → stack (forth_depth v) ≡ some (pos (length xs) ∷ xs)
unfolding forth_depth
depth-stack v [] h = ground (arith, stack-nil v h)
depth-stack v (x ∷ xs) h =
    let (n, p, q, e) = stack-cons v x xs h in
    let size : length xs ≡ n = ap length (sym e) ∙ length-below v.s n in
    ground (arith, below-update v.s (suc n) (suc (suc n)) v.tos)

-- Where the top of the stack gives a position that the items beneath it have, `roll` takes the item
-- there out of its place and leaves it on top; the loop that closes the gap ends.
pub roll-stack :
    (v : Vm) (u : ℕ) (x : ℤ) (xs : List ℤ)
    → stack v ≡ some (pos u ∷ xs)
    → get_elem? xs u ≡ some x
    → (v' : Vm) × (forth_roll v ≡ some v') × (stack v' ≡ some (x ∷ erase_at u xs))
unfolding forth_roll
roll-stack v u x xs h g =
    let (n, p, q, e) = stack-cons v (pos u) xs h in
    let (inside, found) = item-below v.s n u x xs e g in
    let w = v.s (v.sp -ℤ pos u) in
    let place : v.sp -ℤ pos u ≡ pos (suc n - u) = ground arith in
    let s' = roll_loop u v.sp v.s in
    let gap : below s' n ≡ erase_at u xs =
      ap (λ i. below (roll_loop u i v.s) n) p
      ∙ below-roll_loop u n v.s inside
      ∙ ap (erase_at u) e in
    let v' : Vm = record v { w = w; s = s'; sp = dec v.sp; tos = w } in
    let left : dec v.sp ≡ pos n = ground arith in
    (
      v',
      rw q refl,
      stack_at-pos w s' n (dec v.sp) left (omega arith)
          ∙ ap some (ap₂ ◌∷◌ (ap v.s place ∙ found) gap),
    )
