-- ===== src/Stack/Effects.antt =====
-- What each operator does to the list on the data stack.
use post.Prelude.{ℤ, pos, Store, update, ℕ, suc, some, List, ◌∷◌, ◌≡◌, arith, ◌∙◌}
use post.Vm.{Vm, pop}
use post.Stack.{
  forth_dup, forth_drop, forth_swap, forth_over, forth_rot, forth_minrot, forth_tuck, forth_nip,
  forth_2dup, forth_2drop, forth_2swap, forth_2over,
}
use post.Stack.View.{
  below, stack, below-update, stack-cons, stack_two, stack_three, stack_four, stack-push, stack-pop,
}
use post.Stack.Comment.{
  Shuffle, dup, drop, swap, over, rot, minrot, tuck, nip, two_dup, two_drop, two_swap, two_over,
  run, inputs, outputs, Name, onto,
}

-- The three array writes of `2swap`, with four items or more on the stack.
2swap_cells :
    (s : Store) (t : ℤ) (k : ℕ)
    → let n = suc (suc k) in
      let s1 = update s (pos (suc n)) t in
      let s2 = update s1 (pos n) (s1 (pos (suc (suc n)))) in
      let s3 = update s2 (pos (suc (suc n))) (s1 (pos n)) in
      below s3 (suc (suc n)) ≡ s (pos n) ∷ t ∷ s (pos (suc (suc n))) ∷ below s (suc k)
2swap_cells s t k =
    let n = suc (suc k) in
    let s1 = update s (pos (suc n)) t in
    let s2 = update s1 (pos n) (s1 (pos (suc (suc n)))) in
    ground (
      arith,
      below-update s (suc k) (suc n) t,
      below-update s1 (suc k) n (s1 (pos (suc (suc n)))),
      below-update s2 (suc k) (suc (suc n)) (s1 (pos n)),
    )

2swap_at :
    (v : Vm) (k : ℕ)
    → v.sp ≡ pos (suc (suc (suc (suc k))))
    → let n = suc (suc k) in
      stack (forth_2swap v)
      ≡ some (v.s (pos (suc n)) ∷ v.s (pos n) ∷ v.tos ∷ v.s (pos (suc (suc n))) ∷ below v.s (suc k))
unfolding forth_2swap
2swap_at v k p = ground (arith, 2swap_cells v.s v.tos k)

module _ (v : Vm) (xs : List ℤ) where
  pub dup-stack : (a : ℤ) → stack v ≡ some (a ∷ xs) → stack (forth_dup v) ≡ some (a ∷ a ∷ xs)
  unfolding forth_dup
  dup-stack a h =
      let (n, p, q, e) = stack-cons v a xs h in ground (arith, stack-push v v.tos (a ∷ xs) h)

  pub drop-stack : (a : ℤ) → stack v ≡ some (a ∷ xs) → stack (forth_drop v) ≡ some xs
  unfolding forth_drop
  drop-stack a h = stack-pop v a xs h

  pub swap-stack :
      (a b : ℤ) → stack v ≡ some (b ∷ a ∷ xs) → stack (forth_swap v) ≡ some (a ∷ b ∷ xs)
  unfolding forth_swap
  swap-stack a b h =
      let (k, p, q, e, f) = stack_two v b a xs h in
      ground (arith, below-update v.s (suc k) (suc (suc k)) v.tos)

  pub over-stack :
      (a b : ℤ) → stack v ≡ some (b ∷ a ∷ xs) → stack (forth_over v) ≡ some (a ∷ b ∷ a ∷ xs)
  unfolding forth_over
  over-stack a b h =
      let (k, p, q, e, f) = stack_two v b a xs h in
      ground (arith, below-update v.s (suc k) (suc (suc (suc k))) v.tos)

  pub rot-stack :
      (a b c : ℤ) → stack v ≡ some (c ∷ b ∷ a ∷ xs) → stack (forth_rot v) ≡ some (a ∷ c ∷ b ∷ xs)
  unfolding forth_rot
  rot-stack a b c h =
      let (k, p, q, e, f, g) = stack_three v c b a xs h in
      let s1 = update v.s (pos (suc (suc (suc k)))) v.tos in
      ground (
        arith,
        below-update v.s (suc k) (suc (suc (suc k))) v.tos,
        below-update s1 (suc k) (suc (suc k)) b,
      )

  pub minrot-stack :
      (a b c : ℤ) → stack v ≡ some (c ∷ b ∷ a ∷ xs) → stack (forth_minrot v) ≡ some (b ∷ a ∷ c ∷ xs)
  unfolding forth_minrot
  minrot-stack a b c h =
      let (k, p, q, e, f, g) = stack_three v c b a xs h in
      let s1 = update v.s (pos (suc (suc k))) v.tos in
      ground (
        arith,
        below-update v.s (suc k) (suc (suc k)) v.tos,
        below-update s1 (suc k) (suc (suc (suc k))) a,
      )

  pub tuck-stack :
      (a b : ℤ) → stack v ≡ some (b ∷ a ∷ xs) → stack (forth_tuck v) ≡ some (b ∷ a ∷ b ∷ xs)
  unfolding forth_tuck
  tuck-stack a b h =
      let (k, p, q, e, f) = stack_two v b a xs h in
      let s1 = update v.s (pos (suc (suc k))) v.tos in
      ground (
        arith,
        below-update v.s (suc k) (suc (suc k)) v.tos,
        below-update s1 (suc k) (suc (suc (suc k))) a,
      )

  pub nip-stack : (a b : ℤ) → stack v ≡ some (b ∷ a ∷ xs) → stack (forth_nip v) ≡ some (b ∷ xs)
  unfolding forth_nip
  nip-stack a b h = let (k, p, q, e, f) = stack_two v b a xs h in ground arith

  pub 2dup-stack :
      (a b : ℤ) → stack v ≡ some (b ∷ a ∷ xs) → stack (forth_2dup v) ≡ some (b ∷ a ∷ b ∷ a ∷ xs)
  unfolding forth_2dup
  2dup-stack a b h =
      let (k, p, q, e, f) = stack_two v b a xs h in
      let s1 = update v.s (pos (suc (suc (suc k)))) v.tos in
      ground (
        arith,
        below-update v.s (suc k) (suc (suc (suc k))) v.tos,
        below-update s1 (suc k) (suc (suc (suc (suc k)))) a,
      )

  pub 2drop-stack : (a b : ℤ) → stack v ≡ some (b ∷ a ∷ xs) → stack (forth_2drop v) ≡ some xs
  unfolding forth_2drop pop
  2drop-stack a b h = stack-pop (pop v) a xs (stack-pop v b (a ∷ xs) h)

  pub 2swap-stack :
      (a b c d : ℤ)
      → stack v ≡ some (d ∷ c ∷ b ∷ a ∷ xs)
      → stack (forth_2swap v) ≡ some (b ∷ a ∷ d ∷ c ∷ xs)
  unfolding forth_2swap
  2swap-stack a b c d h =
      let (k, p, q, e, f, g, u) = stack_four v d c b a xs h in 2swap_at v k p ∙ ground arith

  pub 2over-stack :
      (a b c d : ℤ)
      → stack v ≡ some (d ∷ c ∷ b ∷ a ∷ xs)
      → stack (forth_2over v) ≡ some (b ∷ a ∷ d ∷ c ∷ b ∷ a ∷ xs)
  unfolding forth_2over
  2over-stack a b c d h =
      let (k, p, q, e, f, g, u) = stack_four v d c b a xs h in
      let s1 = update v.s (pos (suc (suc (suc (suc (suc k)))))) v.tos in
      ground (
        arith,
        below-update v.s (suc k) (suc (suc (suc (suc (suc k))))) v.tos,
        below-update s1 (suc k) (suc (suc (suc (suc (suc (suc k)))))) a,
      )

-- Each of the twelve operators does to the stack what its stack comment says: whatever values the
-- names on the left stand for, and whatever lies beneath, it replaces the items named on the left by
-- those named on the right.
pub run-comment :
    (word : Shuffle) (value : Name → ℤ) (v : Vm) (xs : List ℤ)
    → stack v ≡ some (onto value (inputs word) xs)
    → stack (run word v) ≡ some (onto value (outputs word) xs)
unfolding run inputs outputs
run-comment dup value v xs h = dup-stack v xs _ h
run-comment drop value v xs h = drop-stack v xs _ h
run-comment swap value v xs h = swap-stack v xs _ _ h
run-comment over value v xs h = over-stack v xs _ _ h
run-comment rot value v xs h = rot-stack v xs _ _ _ h
run-comment minrot value v xs h = minrot-stack v xs _ _ _ h
run-comment tuck value v xs h = tuck-stack v xs _ _ h
run-comment nip value v xs h = nip-stack v xs _ _ h
run-comment two_dup value v xs h = 2dup-stack v xs _ _ h
run-comment two_drop value v xs h = 2drop-stack v xs _ _ h
run-comment two_swap value v xs h = 2swap-stack v xs _ _ _ _ h
run-comment two_over value v xs h = 2over-stack v xs _ _ _ _ h
