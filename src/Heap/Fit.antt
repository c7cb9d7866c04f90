-- ===== src/Heap/Fit.antt =====
-- `searchfit` finds the best fit.
use post.Prelude.{
  ℤ, pos, negsuc, ◌==ℤ◌, ◌≤ℤ◌, ◌<ℤ◌, Store, ℕ, zero, suc, ◌+◌, true, false, ◌≡◌, ◌≢◌, ◌⊎◌, inl, inr,
  refl, arith, some, List, [], ◌∷◌, get_elem?, take, Bool-cases, ==ℤ_iff, ◌∙◌, ltb_ℤ,
}
use mathlib.Core.Path.{subst, sym}
use post.Heap.{Heap, slack, searchfit, searchfit_loop}

-- What a free chunk of size `a` has beyond a request: none, or so much that the rest can be a chunk.
abbrev pub Fits : ℤ → Type 0
Fits slack = (slack ≡ pos 0) ⊎ (pos 2 <ℤ slack)

-- The chunk `c` at index `k` fits the request, and no chunk that fits leaves less over.
pub record Best (m : Store) (size : ℤ) (cs : List ℤ) (k : ℕ) (c : ℤ) : Type 0 where
  pub here : get_elem? cs k ≡ some c
  pub fits : Fits (slack m size c)
  pub least :
      (j : ℕ) (d : ℤ)
      → get_elem? cs j ≡ some d
      → Fits (slack m size d)
      → slack m size c ≤ℤ slack m size d

-- No chunk fits exactly, or with less than `temp` left over.
abbrev pub NoneBelow : Store → ℤ → ℤ → List ℤ → Type 0
NoneBelow m size temp cs =
    (j : ℕ) (d : ℤ)
    → get_elem? cs j ≡ some d
    → Fits (slack m size d)
    → (slack m size d ≢ pos 0) × (temp ≤ℤ slack m size d)

-- What the loop returns when it begins at index `i` with `fit` and `temp`.
abbrev Outcome : Store → ℤ → ℕ → List ℤ → ℤ → ℤ → ℤ → Type 0
Outcome m size i cs fit temp r =
    ((r ≡ fit) × NoneBelow m size temp cs)
    ⊎ ((k : ℕ) × (c : ℤ) × (r ≡ pos (i + k)) × Best m size cs k c × (slack m size c ≤ℤ temp))

exact-le : (a b : ℤ) → a ≡ pos 0 → Fits b → a ≤ℤ b
exact-le a b e f = ground arith

module _ (m : Store) (size : ℤ) (c : ℤ) (cs : List ℤ) where
  Best-exact : slack m size c ≡ pos 0 → Best m size (c ∷ cs) 0 c
  Best-exact e = record {
    here = refl;
    fits = inl e;
    least = λ j d h f. exact-le (slack m size c) (slack m size d) e f;
  }

  Best-cons :
      (k : ℕ) (d : ℤ)
      → (Fits (slack m size c) → slack m size d ≤ℤ slack m size c)
      → Best m size cs k d
      → Best m size (c ∷ cs) (suc k) d
  Best-cons k d le b = record { here = b.here; fits = b.fits; least = least_at }
    where
      least_at :
          (j : ℕ) (e : ℤ)
          → get_elem? (c ∷ cs) j ≡ some e
          → Fits (slack m size e)
          → slack m size d ≤ℤ slack m size e
      least_at zero e h f =
          let q : c ≡ e = cc in
          subst (λ z. slack m size d ≤ℤ slack m size z) q
            (le (subst (λ z. Fits (slack m size z)) (sym q) f))
      least_at (suc j) e h f = b.least j e h f

  Best-head :
      pos 2 <ℤ slack m size c → NoneBelow m size (slack m size c) cs → Best m size (c ∷ cs) 0 c
  Best-head big rest = record { here = refl; fits = inr big; least = least_at }
    where
      least_at :
          (j : ℕ) (e : ℤ)
          → get_elem? (c ∷ cs) j ≡ some e
          → Fits (slack m size e)
          → slack m size c ≤ℤ slack m size e
      least_at zero e h f =
          let q : c ≡ e = cc in subst (λ z. slack m size c ≤ℤ slack m size z) q (omega arith)
      least_at (suc j) e h f = (rest j e h f).1

  NoneBelow-cons :
      (temp : ℤ)
      → (Fits (slack m size c) → (slack m size c ≢ pos 0) × (temp ≤ℤ slack m size c))
      → NoneBelow m size temp cs
      → NoneBelow m size temp (c ∷ cs)
  NoneBelow-cons temp first rest zero d h f =
      let q : c ≡ d = cc in
      subst (λ z. (slack m size z ≢ pos 0) × (temp ≤ℤ slack m size z)) q
        (first (subst (λ z. Fits (slack m size z)) (sym q) f))
  NoneBelow-cons temp first rest (suc j) d h f = rest j d h f

no_fit : (x : ℤ) {P : Type 0} → (x ==ℤ pos 0) ≡ false → ltb_ℤ (pos 2) x ≡ false → Fits x → P
no_fit x e small (inl q) = absurd (ground arith)
no_fit x e small (inr q) = absurd (ground arith)

after : (i k : ℕ) → pos (suc i + k) ≡ pos (i + suc k)
after i k = ground arith

-- The chunk at index `i` was passed over: what the rest of the loop finds stands.
skipped :
    (m : Store) (size : ℤ) (i : ℕ) (c : ℤ) (cs : List ℤ) (fit temp r : ℤ)
    → pos 0 ≤ℤ temp
    → (Fits (slack m size c) → (slack m size c ≢ pos 0) × (temp ≤ℤ slack m size c))
    → Outcome m size (suc i) cs fit temp r
    → Outcome m size i (c ∷ cs) fit temp r
skipped m size i c cs fit temp r p first (inl (e, none_below)) =
    inl (e, NoneBelow-cons m size c cs temp first none_below)
skipped m size i c cs fit temp r p first (inr (k, d, e, best, le)) = inr (
  suc k,
  d,
  e ∙ after i k,
  Best-cons m size c cs k d (λ f. let q = (first f).1 in omega arith) best,
  le,
)

at_self : (i : ℕ) → pos i ≡ pos (i + 0)
at_self i = ground arith

more_than_two : (x : ℤ) → ltb_ℤ (pos 2) x ≡ true → pos 2 <ℤ x
more_than_two x h = ground arith

nonneg : (x : ℤ) → ltb_ℤ (pos 2) x ≡ true → pos 0 ≤ℤ x
nonneg x h = ground arith

less : (x y : ℤ) → ltb_ℤ x y ≡ true → x ≤ℤ y
less x y h = ground arith

passed : (x y : ℤ) → ltb_ℤ (pos 2) x ≡ true → ltb_ℤ x y ≡ false → (x ≢ pos 0) × (y ≤ℤ x)
passed x y h k = (λ e. absurd (ground arith), ground arith)

-- The chunk at index `i` became the best so far.
taken :
    (m : Store) (size : ℤ) (i : ℕ) (c : ℤ) (cs : List ℤ) (fit temp r : ℤ)
    → pos 2 <ℤ slack m size c
    → slack m size c ≤ℤ temp
    → Outcome m size (suc i) cs (pos i) (slack m size c) r
    → Outcome m size i (c ∷ cs) fit temp r
taken m size i c cs fit temp r big le (inl (e, none_below)) =
    inr (0, c, e ∙ at_self i, Best-head m size c cs big none_below, le)
taken m size i c cs fit temp r big le (inr (k, d, e, best, le')) =
    inr (suc k, d, e ∙ after i k, Best-cons m size c cs k d (λ f. le') best, omega arith)

searchfit_loop-Outcome :
    (m : Store) (size : ℤ) (i : ℕ) (cs : List ℤ) (fit temp : ℤ)
    → pos 0 ≤ℤ temp
    → Outcome m size i cs fit temp (searchfit_loop m size i cs fit temp)
unfolding searchfit_loop
searchfit_loop-Outcome m size i [] fit temp p = inl (refl, λ j d h f. absurd (cc))
searchfit_loop-Outcome m size i (c ∷ cs) fit temp p =
    let x = slack m size c in
    elim (Bool-cases (x ==ℤ pos 0)) [
      | inl e ↦
          let e' : x ≡ pos 0 = (==ℤ_iff x (pos 0)).0 e in
          rw e (inr (0, c, at_self i, Best-exact m size c cs e', rw e' p))
      | inr e ↦ elim (Bool-cases (ltb_ℤ (pos 2) x)) [
        | inr small ↦
            rw (e, small)
              (skipped m size i c cs fit temp _ p (λ f. no_fit x e small f)
                (searchfit_loop-Outcome m size (suc i) cs fit temp p))
        | inl big ↦ elim (Bool-cases (ltb_ℤ x temp)) [
          | inr worse ↦
              rw (e, big, worse)
                (skipped m size i c cs fit temp _ p (λ f. passed x temp big worse)
                  (searchfit_loop-Outcome m size (suc i) cs fit temp p))
          | inl better ↦
              rw (e, big, better)
                (taken m size i c cs fit temp _ (more_than_two x big) (less x temp better)
                  (searchfit_loop-Outcome m size (suc i) cs (pos i) x (nonneg x big)))
        ]
      ]
    ]

-- Among the free chunks that the counter counts, `searchfit` returns the index of the best fit, or
-- -1 when no chunk fits. A chunk fits if its size is that asked for or more than 2 greater; the
-- search takes no notice of a chunk with 2 ^ 32 - 1 cells or more to spare.
pub searchfit-Best :
    (size : ℤ) (h : Heap)
    → ((searchfit size h ≡ negsuc 0)
        × NoneBelow h.vm.m size (pos 0xffff_ffff) (take h.nfreechunks h.freechunk))
      ⊎ ((k : ℕ) × (c : ℤ) × (searchfit size h ≡ pos k)
          × Best h.vm.m size (take h.nfreechunks h.freechunk) k c)
unfolding searchfit
searchfit-Best size h =
    elim (searchfit_loop-Outcome h.vm.m size 0 (take h.nfreechunks h.freechunk) (negsuc 0)
      (pos 0xffff_ffff) (omega arith)) [
        | inl none_fits ↦ inl none_fits
        | inr (k, c, e, best, le) ↦ inr (k, c, e ∙ ground arith, best)
      ]
