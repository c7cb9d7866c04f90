-- ===== src/Memory/Fill.antt =====
-- `fill`, `erase`
use post.Prelude.{
  ℤ, pos, ◌+ℤ◌, leb_ℤ, ltb_ℤ, Bool, ◌&&◌, Store, update, ℕ, zero, suc, some, List, ◌∷◌,
  if◌then◌else◌, ◌≡◌, arith,
}
use post.Vm.{Vm, inc, dec, push, pop}
use post.Memory.{forth_fill, forth_erase, fill_loop}
use post.Stack.View.{stack, stack-push, top_at, under_at, nip_at, pop_at}

-- The addresses from `a` on, `n` of them.
abbrev pub within : ℤ → ℕ → ℤ → Bool
within a n j = leb_ℤ a j && ltb_ℤ j (a +ℤ pos n)

pub fill_loop-cells :
    (n : ℕ) (a c : ℤ) (m : Store) (j : ℤ) → fill_loop n a c m j ≡ (if within a n j then c else m j)
unfolding fill_loop
fill_loop-cells zero a c m j = ground arith
fill_loop-cells (suc n) a c m j = ground (arith, fill_loop-cells n (inc a) c (update m a c) j)

-- `fill` ends for a count that is not negative: it writes its character to exactly the cells of the
-- region, and drops its three arguments.
pub fill-cells :
    (v : Vm) (c a : ℤ) (n : ℕ) (xs : List ℤ)
    → stack v ≡ some (c ∷ pos n ∷ a ∷ xs)
    → (v' : Vm) × (forth_fill v ≡ some v')
      × (stack v' ≡ some xs)
      × ((j : ℤ) → v'.m j ≡ (if within a n j then c else v.m j))
unfolding forth_fill
fill-cells v c a n xs h =
    let sp1 = dec v.sp in
    let top = top_at v.tos v.s v.sp c (pos n ∷ a ∷ xs) h in
    let count = under_at v.tos v.s v.sp c (pos n) (a ∷ xs) h in
    let h1 = nip_at v.tos v.s v.sp c (pos n) (a ∷ xs) h in
    let start = under_at v.tos v.s sp1 c a xs h1 in
    let h2 = nip_at v.tos v.s sp1 c a xs h1 in
    let u : Vm = record v { m = fill_loop n (v.s sp1) v.tos v.m; sp = dec sp1 } in
    (
      pop u,
      rw (count, forth_fill),
      pop_at v.tos v.s (dec sp1) c xs h2,
      λ j. rw (← top, ← start) (fill_loop-cells n (v.s sp1) v.tos v.m j),
    )

-- `erase` ends for a count that is not negative: it writes 0 to exactly the cells of the region,
-- and drops its two arguments.
pub erase-cells :
    (v : Vm) (a : ℤ) (n : ℕ) (xs : List ℤ)
    → stack v ≡ some (pos n ∷ a ∷ xs)
    → (v' : Vm) × (forth_erase v ≡ some v')
      × (stack v' ≡ some xs)
      × ((j : ℤ) → v'.m j ≡ (if within a n j then pos 0 else v.m j))
unfolding forth_erase push
erase-cells v a n xs h =
    fill-cells (push (pos 0) v) (pos 0) a n xs (stack-push v (pos 0) (pos n ∷ a ∷ xs) h)
