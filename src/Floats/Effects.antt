-- ===== src/Floats/Effects.antt =====
-- What the float words do to the list on the float stack.
use post.Prelude.{
  ℤ, pos, suc, some, List, [], ◌∷◌, length, take, Bool, not, ◌≡◌, refl, arith, ap, ◌∙◌,
}
use post.Vm.{inc}
use post.Arith.{flag}
use post.Stack.View.{stack, stack-push, stack_two, below-update}
use post.Floats.{
  Doubles, Fm, forth_fdrop, forth_fdup, forth_fswap, forth_fover, forth_fequ, forth_fless,
  forth_fdepth, forth_fminus, forth_fdiv, forth_fplus, forth_fmul, forth_fpower, forth_fatan2,
  forth_fmore, forth_fnequ, popped, tail, answer_flag,
}

-- The items, top first: `f` holds as many as there are on the stack, the last of them the value that
-- `ftos` had when the stack was empty.
abbrev pub fstack_at : {D : Type 0} → D → List D → List D
fstack_at t f = take (length f) (t ∷ f)

abbrev pub fstack : {D : Type 0} → Fm D → List D
fstack u = fstack_at u.ftos u.f

module _ {D : Type 0} where
  -- The parts of a float stack with an item.
  fstack-cons :
      (t : D) (f : List D) (a : D) (rest : List D)
      → fstack_at t f ≡ a ∷ rest
      → (p : D) × (g : List D) × (f ≡ p ∷ g) × (t ≡ a) × (fstack_at p g ≡ rest)
  fstack-cons t [] a rest h = absurd (cc)
  fstack-cons t (p ∷ g) a rest h = (p, g, refl, cc, cc)

  length-fstack_at : (t : D) (f : List D) → length (fstack_at t f) ≡ length f
  length-fstack_at t [] = refl
  length-fstack_at t (p ∷ g) = ap suc (length-fstack_at p g)

module _ {D : Type 0} (d : Doubles D) (u : Fm D) (a b : D) (rest : List D)
    (h : fstack u ≡ a ∷ b ∷ rest) where
  -- With two items or more on the float stack, `fdup`, `fdrop`, `fswap` and `fover` do to it what their
  -- stack comments say.
  pub fstack-shuffled :
      (fstack (forth_fdup d u) ≡ a ∷ a ∷ b ∷ rest)
      × (fstack (forth_fdrop d u) ≡ b ∷ rest)
      × (fstack (forth_fswap d u) ≡ b ∷ a ∷ rest)
      × (fstack (forth_fover d u) ≡ b ∷ a ∷ b ∷ rest)
  unfolding forth_fdup forth_fdrop forth_fswap forth_fover
  fstack-shuffled =
      let (p, g, e, top, left) = fstack-cons u.ftos u.f a (b ∷ rest) h in
      let (q, k, e', second, left') = fstack-cons p g b rest left in
      (ground arith, ground arith, ground arith, ground arith)

  -- With two items or more on the float stack, `f-`, `f/`, `f+`, `f*`, `f**` and `fatan2` replace
  -- the two on top by their result, which for the words that do not commute takes the lower item
  -- first.
  pub fstack-computed :
      (fstack (forth_fminus d u) ≡ d.sub b a ∷ rest)
      × (fstack (forth_fdiv d u) ≡ d.div b a ∷ rest)
      × (fstack (forth_fplus d u) ≡ d.add a b ∷ rest)
      × (fstack (forth_fmul d u) ≡ d.mul a b ∷ rest)
      × (fstack (forth_fpower d u) ≡ d.pow b a ∷ rest)
      × (fstack (forth_fatan2 d u) ≡ d.atan2 b a ∷ rest)
  unfolding forth_fminus forth_fdiv forth_fplus forth_fmul forth_fpower forth_fatan2
  fstack-computed =
      let (p, g, e, top, left) = fstack-cons u.ftos u.f a (b ∷ rest) h in
      let (q, k, e', second, left') = fstack-cons p g b rest left in
      (ground arith, ground arith, ground arith, ground arith, ground arith, ground arith)

  -- With two items or more on the float stack, `f<`, `f>`, `f=` and `f<>` push the right flag, but
  -- take only the lower operand off the float stack and leave the upper one.
  pub fstack-compared :
      (xs : List ℤ)
      → stack u.vm ≡ some xs
      → ((fstack (forth_fless d u) ≡ a ∷ rest)
          × (stack (forth_fless d u).vm ≡ some (flag (d.less b a) ∷ xs)))
        × ((fstack (forth_fmore d u) ≡ a ∷ rest)
            × (stack (forth_fmore d u).vm ≡ some (flag (d.less a b) ∷ xs)))
        × ((fstack (forth_fequ d u) ≡ a ∷ rest)
            × (stack (forth_fequ d u).vm ≡ some (flag (d.equal a b) ∷ xs)))
        × ((fstack (forth_fnequ d u) ≡ a ∷ rest)
            × (stack (forth_fnequ d u).vm ≡ some (flag (not (d.equal a b)) ∷ xs)))
  unfolding forth_fless forth_fmore forth_fequ forth_fnequ answer_flag
  fstack-compared xs on_stack =
      let (p, g, e, top, left) = fstack-cons u.ftos u.f a (b ∷ rest) h in
      let (q, k, e', second, left') = fstack-cons p g b rest left in
      let below : popped d u.f ≡ b = ap (popped d) e ∙ second in
      let kept : fstack_at u.ftos (tail d u.f) ≡ a ∷ rest = ground arith in
      let pushed = λ (c : Bool). stack-push u.vm (flag c) xs on_stack in
      (
        (
          kept,
          pushed (d.less (popped d u.f) u.ftos)
              ∙ (λ i. some (flag (d.less (below i) (top i)) ∷ xs)),
        ),
        (
          kept,
          pushed (d.less u.ftos (popped d u.f))
              ∙ (λ i. some (flag (d.less (top i) (below i)) ∷ xs)),
        ),
        (
          kept,
          pushed (d.equal u.ftos (popped d u.f))
              ∙ (λ i. some (flag (d.equal (top i) (below i)) ∷ xs)),
        ),
        (
          kept,
          pushed (not (d.equal u.ftos (popped d u.f)))
              ∙ (λ i. some (flag (not (d.equal (top i) (below i))) ∷ xs)),
        ),
      )

module _ {D : Type 0} (d : Doubles D) (u : Fm D) where
  -- With two items or more on the data stack, `fdepth` pushes the number of items on the float
  -- stack, but the second item of the data stack is overwritten by the first, and a cell from above
  -- the stack comes in between.
  pub fdepth-stack :
      (x y : ℤ) (xs : List ℤ)
      → stack u.vm ≡ some (x ∷ y ∷ xs)
      → stack (forth_fdepth d u).vm ≡ some (pos (length (fstack u)) ∷ u.vm.s (inc u.vm.sp) ∷ x ∷ xs)
  unfolding forth_fdepth
  fdepth-stack x y xs on_stack =
      let (k, p, q, e, f) = stack_two u.vm x y xs on_stack in
      let size : length (fstack u) ≡ length u.f = length-fstack_at u.ftos u.f in
      ground (arith, below-update u.vm.s (suc k) (suc (suc k)) u.vm.tos)
