-- ===== src/Memory/Move.antt =====
-- `move` and `cmove`: where the direction of the copy suits the two regions, and where it does not.
use post.Prelude.{
  ℤ, pos, ◌+ℤ◌, ltb_ℤ, true, false, Store, update, ℕ, zero, suc, ◌+◌, ◌<◌, ◌≤◌, some, List, ◌∷◌,
  if◌then◌else◌, ◌≡◌, ◌⊎◌, inl, inr, refl, arith, ap, ◌∙◌, Bool-cases, update_self, update_ne,
}
use native.Mathlib.Decide.{dec_lt}
use post.Vm.{Vm, inc, dec, pop}
use post.Memory.{forth_move, move_up, move_down}
use post.Memory.Fill.{within}
use post.Stack.View.{stack, top_at, under_at, nip_at, pop_at}

inc-pos : (n : ℕ) → inc (pos n) ≡ pos (suc n)
inc-pos n = ground arith

dec-pos : (n : ℕ) → dec (pos (suc n)) ≡ pos n
dec-pos n = ground arith

-- `n` cells from address `s` of the memory `m` stand at address `d` of `m'`, which is otherwise `m`.
pub record Copied (n d s : ℕ) (m m' : Store) : Type 0 where
  pub inside : (k : ℕ) → k < n → m' (pos (d + k)) ≡ m (pos (s + k))
  pub outside : (j : ℤ) → within (pos d) n j ≡ false → m' j ≡ m j

move_up-zero : (d s : ℤ) (m : Store) → move_up zero d s m ≡ m
unfolding move_up
move_up-zero d s m = refl

move_down-zero : (d s : ℤ) (m : Store) → move_down zero d s m ≡ m
unfolding move_down
move_down-zero d s m = refl

move_up-suc :
    (n d s : ℕ) (m : Store)
    → move_up (suc n) (pos d) (pos s) m
      ≡ move_up n (pos (suc d)) (pos (suc s)) (update m (pos d) (m (pos s)))
unfolding move_up
move_up-suc n d s m = rw (inc-pos, inc-pos)

move_up-outside :
    (n d s : ℕ) (m : Store) (j : ℤ)
    → within (pos d) n j ≡ false
    → move_up n (pos d) (pos s) m j ≡ m j
move_up-outside zero d s m j h = ap (λ g. g j) (move_up-zero (pos d) (pos s) m)
move_up-outside (suc n) d s m j h = rw move_up-suc (
    move_up-outside n (suc d) (suc s) (update m (pos d) (m (pos s))) j (ground arith)
    ∙ ground arith)

-- Upwards, the copy is right where the destination does not begin inside the source.
move_up-inside :
    (n d s : ℕ) (m : Store) (k : ℕ)
    → (d ≤ s) ⊎ (s + n ≤ d)
    → k < n
    → move_up n (pos d) (pos s) m (pos (d + k)) ≡ m (pos (s + k))
move_up-inside zero d s m k apart h = absurd (omega arith)
move_up-inside (suc n) d s m zero apart h = rw move_up-suc (
    move_up-outside n (suc d) (suc s) (update m (pos d) (m (pos s))) (pos (d + 0)) (ground arith)
    ∙ ground arith)
move_up-inside (suc n) d s m (suc k) apart h =
    let m1 = update m (pos d) (m (pos s)) in
    let i : d + suc k ≡ suc d + k = omega arith in
    let rest : move_up n (pos (suc d)) (pos (suc s)) m1 (pos (suc d + k)) ≡ m1 (pos (suc s + k)) =
      move_up-inside n (suc d) (suc s) m1 k (omega arith) (omega arith) in
    rw (move_up-suc, i) (rest ∙ ground arith)

move_down-suc :
    (n d s : ℕ) (m : Store)
    → move_down (suc n) (pos (d + suc n)) (pos (s + suc n)) m
      ≡ move_down n (pos (d + n)) (pos (s + n)) (update m (pos (d + n)) (m (pos (s + n))))
unfolding move_down
move_down-suc n d s m =
    let i : d + suc n ≡ suc (d + n) = omega arith in
    let j : s + suc n ≡ suc (s + n) = omega arith in rw (i, j, dec-pos, dec-pos)

move_down-outside :
    (n d s : ℕ) (m : Store) (j : ℤ)
    → within (pos d) n j ≡ false
    → move_down n (pos (d + n)) (pos (s + n)) m j ≡ m j
move_down-outside zero d s m j h = ap (λ g. g j) (move_down-zero (pos (d + 0)) (pos (s + 0)) m)
move_down-outside (suc n) d s m j h = rw move_down-suc (
    move_down-outside n d s (update m (pos (d + n)) (m (pos (s + n)))) j (ground arith)
    ∙ ground arith)

-- Downwards, the copy is right where the source does not begin inside the destination.
move_down-inside :
    (n d s : ℕ) (m : Store) (k : ℕ)
    → (s ≤ d) ⊎ (d + n ≤ s)
    → k < n
    → move_down n (pos (d + n)) (pos (s + n)) m (pos (d + k)) ≡ m (pos (s + k))
move_down-inside zero d s m k apart h = absurd (omega arith)
move_down-inside (suc n) d s m k apart h =
    let m1 = update m (pos (d + n)) (m (pos (s + n))) in
    elim (dec_lt k n) [
      | yes p ↦ rw move_down-suc (
          move_down-inside n d s m1 k (omega arith) p
          ∙ update_ne m (pos (d + n)) (m (pos (s + n))) (pos (s + k)) (ground arith))
      | no p ↦
          let e : k ≡ n = omega arith in
          rw (move_down-suc, e)
            (move_down-outside n d s m1 (pos (d + n)) (ground arith)
              ∙ update_self m (pos (d + n)) (m (pos (s + n))))
    ]

-- The memory that `move` leaves.
moved : Vm → (n d s : ℕ) → Store
moved v n d s =
    if ltb_ℤ (v.s (inc v.sp)) (pos d)
    then move_down n (pos d +ℤ pos n) (pos s +ℤ pos n) v.m
    else move_up n (pos d) (pos s) v.m

-- `move` on its three arguments.
move-moved :
    (v : Vm) (n d s : ℕ) (xs : List ℤ)
    → stack v ≡ some (pos n ∷ pos d ∷ pos s ∷ xs)
    → (v' : Vm) × (forth_move v ≡ some v') × (stack v' ≡ some xs) × (v'.m ≡ moved v n d s)
unfolding forth_move moved
move-moved v n d s xs h =
    let top = top_at v.tos v.s v.sp (pos n) (pos d ∷ pos s ∷ xs) h in
    let dest = under_at v.tos v.s v.sp (pos n) (pos d) (pos s ∷ xs) h in
    let h1 = nip_at v.tos v.s v.sp (pos n) (pos d) (pos s ∷ xs) h in
    let src = under_at v.tos v.s (dec v.sp) (pos n) (pos s) xs h1 in
    let h2 = nip_at v.tos v.s (dec v.sp) (pos n) (pos s) xs h1 in
    (
      pop (record v { m = moved v n d s; sp = dec (dec v.sp) }),
      rw (top, dest, src),
      pop_at v.tos v.s (dec (dec v.sp)) (pos n) xs h2,
      refl,
    )

sum-pos : (a b : ℕ) → pos a +ℤ pos b ≡ pos (a + b)
sum-pos a b = ground arith

moved_down :
    (v : Vm) (n d s : ℕ)
    → ltb_ℤ (v.s (inc v.sp)) (pos d) ≡ true
    → moved v n d s ≡ move_down n (pos (d + n)) (pos (s + n)) v.m
unfolding moved
moved_down v n d s b = rw (b, sum-pos, sum-pos)

moved_up :
    (v : Vm) (n d s : ℕ)
    → ltb_ℤ (v.s (inc v.sp)) (pos d) ≡ false
    → moved v n d s ≡ move_up n (pos d) (pos s) v.m
unfolding moved
moved_up v n d s b = rw b

moved-Copied :
    (v : Vm) (n d s : ℕ)
    → (ltb_ℤ (v.s (inc v.sp)) (pos d) ≡ true → (s ≤ d) ⊎ (d + n ≤ s))
    → (ltb_ℤ (v.s (inc v.sp)) (pos d) ≡ false → (d ≤ s) ⊎ (s + n ≤ d))
    → Copied n d s v.m (moved v n d s)
moved-Copied v n d s down up = elim (Bool-cases (ltb_ℤ (v.s (inc v.sp)) (pos d))) [
  | inl b ↦ rw (moved_down v n d s b) (record {
    inside = λ k h. move_down-inside n d s v.m k (down b) h;
    outside = λ j h. move_down-outside n d s v.m j h;
  })
  | inr b ↦ rw (moved_up v n d s b) (record {
    inside = λ k h. move_up-inside n d s v.m k (up b) h;
    outside = λ j h. move_up-outside n d s v.m j h;
  })
]

move_up-smears :
    (n s : ℕ) (m : Store) (k : ℕ)
    → k < n
    → move_up n (pos (suc s)) (pos s) m (pos (suc s + k)) ≡ m (pos s)
move_up-smears zero s m k h = absurd (omega arith)
move_up-smears (suc n) s m zero h = rw move_up-suc (
    move_up-outside n (suc (suc s)) (suc s) (update m (pos (suc s)) (m (pos s))) (pos (suc s + 0))
      (ground arith)
    ∙ ground arith)
move_up-smears (suc n) s m (suc k) h =
    let m1 = update m (pos (suc s)) (m (pos s)) in
    let i : suc s + suc k ≡ suc (suc s) + k = omega arith in
    rw (move_up-suc, i)
      (move_up-smears n (suc s) m1 k (omega arith) ∙ update_self m (pos (suc s)) (m (pos s)))

-- `move` ends for a count that is not negative and copies the region, with its three arguments
-- dropped, if the direction that it takes suits the regions. It goes down where the cell above the
-- stack is less than the destination; that is right unless the destination begins before the source
-- and they overlap. Otherwise it goes up; that is right unless the source begins before the
-- destination and they overlap.
pub move-Copied :
    (v : Vm) (n d s : ℕ) (xs : List ℤ)
    → stack v ≡ some (pos n ∷ pos d ∷ pos s ∷ xs)
    → (ltb_ℤ (v.s (inc v.sp)) (pos d) ≡ true → (s ≤ d) ⊎ (d + n ≤ s))
    → (ltb_ℤ (v.s (inc v.sp)) (pos d) ≡ false → (d ≤ s) ⊎ (s + n ≤ d))
    → (v' : Vm) × (forth_move v ≡ some v') × (stack v' ≡ some xs) × Copied n d s v.m v'.m
unfolding forth_move
move-Copied v n d s xs h down up =
    let (v', e, left, memory) = move-moved v n d s xs h in
    (v', e, left, rw memory (moved-Copied v n d s down up))

-- Where the cell above the stack is not less than the destination and the destination is the cell
-- after the source, `move` fills the destination with the first cell of the source.
pub move-smears :
    (v : Vm) (n s : ℕ) (xs : List ℤ)
    → stack v ≡ some (pos n ∷ pos (suc s) ∷ pos s ∷ xs)
    → ltb_ℤ (v.s (inc v.sp)) (pos (suc s)) ≡ false
    → (v' : Vm) × (forth_move v ≡ some v')
      × ((k : ℕ) → k < n → v'.m (pos (suc s + k)) ≡ v.m (pos s))
unfolding forth_move
move-smears v n s xs h stale =
    let (v', e, left, memory) = move-moved v n (suc s) s xs h in
    (v', e, λ k inside. rw (memory, moved_up v n (suc s) s stale) (move_up-smears n s v.m k inside))
