-- ===== src/Memory/Scan.antt =====
-- `scan`, `skip` and `-trailing`.
use post.Prelude.{
  ℤ, pos, ◌+ℤ◌, ◌==ℤ◌, Bool, true, false, Store, update, ℕ, zero, suc, ◌+◌, ◌-◌, ◌≤◌, ◌<◌, some,
  List, ◌∷◌, ◌≡◌, ◌⊎◌, inl, inr, refl, arith, ap, ◌∙◌, Bool-cases, not, ==ℤ_iff, ◌≢◌,
}
use mathlib.Core.Path.{subst}
use native.Mathlib.Decide.{dec_lt}
use post.Vm.{Vm, inc, dec}
use post.Memory.{
  forth_scan, forth_skip, search_cells, search_loop, forth_mintrailing, trailing_loop,
}
use post.Stack.View.{stack, top_at, under_at, nip_at, retop_at, set_under_at}

-- The cells of a region of `n` from `a` on, of which the last `left` are not passed.
pub record Stops (stop : ℤ → Bool) (m : Store) (a : ℤ) (n : ℕ) (found : ℤ × ℕ) : Type 0 where
  pub within_count : found.1 ≤ n
  pub place : found.0 ≡ a +ℤ pos (n - found.1)
  pub passed : (i : ℕ) → i < n - found.1 → stop (m (a +ℤ pos i)) ≡ false
  pub at_stop : (found.1 ≡ 0) ⊎ (stop (m found.0) ≡ true)

step_in : (a : ℤ) (i : ℕ) → inc a +ℤ pos i ≡ a +ℤ pos (suc i)
step_in a i = ground arith

Stops-next :
    (stop : ℤ → Bool) (n : ℕ) (m : Store) (a : ℤ) (found : ℤ × ℕ)
    → stop (m a) ≡ false
    → Stops stop m (inc a) n found
    → Stops stop m a (suc n) found
Stops-next stop n m a found e r = record {
  within_count = omega (arith, r.within_count);
  place = r.place ∙ step_in a (n - found.1) ∙ ap (λ k. a +ℤ pos k) (omega (arith, r.within_count));
  passed = λ i h. passed_at i h;
  at_stop = r.at_stop;
}
  where
    passed_at : (i : ℕ) → i < suc n - found.1 → stop (m (a +ℤ pos i)) ≡ false
    passed_at zero h = let z : a +ℤ pos 0 ≡ a = ground arith in rw z e
    passed_at (suc i) h = rw (← step_in a i) (r.passed i (omega arith))

pub search_loop-Stops :
    (stop : ℤ → Bool) (n : ℕ) (m : Store) (a : ℤ) → Stops stop m a n (search_loop stop n m a)
unfolding search_loop
search_loop-Stops stop zero m a = record {
  within_count = omega arith;
  place = ground arith;
  passed = λ i h. absurd (omega arith);
  at_stop = inl refl;
}
search_loop-Stops stop (suc n) m a = elim (Bool-cases (stop (m a))) [
  | inl e ↦ rw e (record {
    within_count = omega arith;
    place = ground arith;
    passed = λ i h. absurd (omega arith);
    at_stop = inr e;
  })
  | inr e ↦ rw e (Stops-next stop n m a _ e (search_loop-Stops stop n m (inc a)))
]

-- What `scan` and `skip` leave, for the test that stops them.
search_cells-Stops :
    (stop : ℤ → Bool) (v : Vm) (c a : ℤ) (n : ℕ) (xs : List ℤ)
    → stack v ≡ some (c ∷ pos n ∷ a ∷ xs)
    → (v' : Vm) × (found : ℤ × ℕ) × (search_cells stop v ≡ some v')
      × (stack v' ≡ some (pos found.1 ∷ found.0 ∷ xs))
      × Stops stop v.m a n found
      × (v'.m ≡ v.m)
unfolding search_cells
search_cells-Stops stop v c a n xs h =
    let sp = dec v.sp in
    let count = under_at v.tos v.s v.sp c (pos n) (a ∷ xs) h in
    let h1 = nip_at v.tos v.s v.sp c (pos n) (a ∷ xs) h in
    let start = under_at v.tos v.s sp c a xs h1 in
    let found = search_loop stop n v.m (v.s sp) in
    let h2 = set_under_at v.tos v.s sp c a xs found.0 h1 in
    (
      record v { s = update v.s sp found.0; sp = sp; tos = pos found.1 },
      found,
      rw (count, search_cells),
      retop_at v.tos (update v.s sp found.0) sp c (found.0 ∷ xs) (pos found.1) h2,
      subst (λ b. Stops stop v.m b n found) start (search_loop-Stops stop n v.m (v.s sp)),
      refl,
    )

-- `scan` ends for a count that is not negative: it leaves the address of the first cell of the
-- region that holds the character, with the count from there to the region's end, or the end and 0;
-- memory stays as it was.
pub scan-Stops :
    (v : Vm) (c a : ℤ) (n : ℕ) (xs : List ℤ)
    → stack v ≡ some (c ∷ pos n ∷ a ∷ xs)
    → (v' : Vm) × (found : ℤ × ℕ) × (forth_scan v ≡ some v')
      × (stack v' ≡ some (pos found.1 ∷ found.0 ∷ xs))
      × Stops (λ x. x ==ℤ c) v.m a n found
      × (v'.m ≡ v.m)
unfolding forth_scan
scan-Stops v c a n xs h =
    rw (top_at v.tos v.s v.sp c (pos n ∷ a ∷ xs) h, forth_scan)
      (search_cells-Stops (λ x. x ==ℤ c) v c a n xs h)

-- `skip` ends for a count that is not negative: it leaves the address of the first cell of the
-- region that does not hold the character, with the count from there to the region's end, or the
-- end and 0; memory stays as it was.
pub skip-Stops :
    (v : Vm) (c a : ℤ) (n : ℕ) (xs : List ℤ)
    → stack v ≡ some (c ∷ pos n ∷ a ∷ xs)
    → (v' : Vm) × (found : ℤ × ℕ) × (forth_skip v ≡ some v')
      × (stack v' ≡ some (pos found.1 ∷ found.0 ∷ xs))
      × Stops (λ x. not (x ==ℤ c)) v.m a n found
      × (v'.m ≡ v.m)
unfolding forth_skip
skip-Stops v c a n xs h =
    rw (top_at v.tos v.s v.sp c (pos n ∷ a ∷ xs) h, forth_skip)
      (search_cells-Stops (λ x. not (x ==ℤ c)) v c a n xs h)

-- The count that `-trailing` leaves of a region of `n` cells from `a` on: every cell that it cuts
-- off is a blank, and the last one that it leaves is not.
pub record Trimmed (m : Store) (a n left : ℕ) : Type 0 where
  pub shorter : left ≤ n
  pub blanks : (i : ℕ) → left ≤ i → i < n → m (pos (a + i)) ≡ pos 32
  pub kept : (left ≡ 0) ⊎ (m (pos (a + left - 1)) ≢ pos 32)

trailing_loop-Trimmed :
    (n : ℕ) (m : Store) (a : ℕ)
    → (left : ℕ) × (trailing_loop n m (pos (a + n)) (pos n) ≡ pos left) × Trimmed m a n left
unfolding trailing_loop
trailing_loop-Trimmed zero m a = (
  0,
  refl,
  record { shorter = omega arith; blanks = λ i h k. absurd (omega arith); kept = inl refl },
)
trailing_loop-Trimmed (suc n) m a =
    let (left, e, r) = trailing_loop-Trimmed n m a in
    let last : dec (pos (a + suc n)) ≡ pos (a + n) = ground arith in
    let fewer : dec (pos (suc n)) ≡ pos n = ground arith in
    elim (Bool-cases (m (pos (a + n)) ==ℤ pos 32)) [
      | inl b ↦ (
        left,
        rw (last, b, fewer) e,
        record {
          shorter = omega (arith, r.shorter);
          blanks = λ i h k. elim (dec_lt i n) [
            | yes p ↦ r.blanks i h p
            | no p ↦
                let i_n : i ≡ n = omega arith in rw i_n ((==ℤ_iff (m (pos (a + n))) (pos 32)).0 b)
          ];
          kept = r.kept;
        },
      )
      | inr b ↦ (
        suc n,
        rw (last, b),
        record {
          shorter = omega arith;
          blanks = λ i h k. absurd (omega arith);
          kept = inr (ground arith);
        },
      )
    ]

-- `-trailing` ends for a count that is not negative: it cuts off the blanks at the region's end and
-- no more; memory stays as it was.
pub mintrailing-Trimmed :
    (v : Vm) (a n : ℕ) (xs : List ℤ)
    → stack v ≡ some (pos n ∷ pos a ∷ xs)
    → (v' : Vm) × (left : ℕ) × (forth_mintrailing v ≡ some v')
      × (stack v' ≡ some (pos left ∷ pos a ∷ xs))
      × Trimmed v.m a n left
      × (v'.m ≡ v.m)
unfolding forth_mintrailing
mintrailing-Trimmed v a n xs h =
    let top = top_at v.tos v.s v.sp (pos n) (pos a ∷ xs) h in
    let start = under_at v.tos v.s v.sp (pos n) (pos a) xs h in
    let (left, e, r) = trailing_loop-Trimmed n v.m a in
    let sum : pos a +ℤ pos n ≡ pos (a + n) = ground arith in
    (
      record v { tos = pos left },
      left,
      rw (top, start, sum, e),
      retop_at v.tos v.s v.sp (pos n) (pos a ∷ xs) (pos left) h,
      r,
      refl,
    )
