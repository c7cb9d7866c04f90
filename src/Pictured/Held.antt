-- ===== src/Pictured/Held.antt =====
-- What `#>` returns of the characters that were held.
use post.Prelude.{
  ℤ, pos, ◌+ℤ◌, ◌<ℤ◌, Store, update, ℕ, suc, some, List, [], ◌∷◌, length, ◌≡◌, refl, arith, ap, ◌∙◌,
  update_self, update_ne, dec-inc, zero, ◌≢◌,
}
use mathlib.Core.Path.{ap₂}
use post.Vm.{push, pop, inc, dec}
use post.Memory.{paddistance}
use post.Pictured.{Output, forth_lesshash, forth_hold, forth_hashmore}
use post.Stack.View.{stack, retop_at, set_under_at, stack-push, stack-pop}

-- The cells from `a` on.
abbrev pub cells : Store → ℤ → ℕ → List ℤ
cells m a zero = []
cells m a (suc n) = m a ∷ cells m (inc a) n

-- `hold` of each character, the last one of the list first, as a program does that goes from the last
-- digit to the first.
abbrev pub hold_all : List ℤ → Output → Output
hold_all [] o = o
hold_all (c ∷ cs) o = let o1 = hold_all cs o in forth_hold (record o1 { vm = push c o1.vm })

cells-update : (m : Store) (n : ℕ) (a i x : ℤ) → i <ℤ a → cells (update m i x) a n ≡ cells m a n
cells-update m zero a i x p = refl
cells-update m (suc n) a i x p = ground (arith, cells-update m n (inc a) i x)

before : (a : ℤ) → dec a <ℤ a
before a = ground arith

less_one : (a b : ℤ) (n : ℕ) → a +ℤ pos n ≡ b → dec a +ℤ pos (suc n) ≡ b
less_one a b n e = ground arith

below_position : (a j b : ℤ) (n : ℕ) → a +ℤ pos n ≡ b → j +ℤ pos (suc n) <ℤ b → dec a ≢ j
below_position a j b n e p q = absurd (ground arith)

shorter : (j b : ℤ) (n : ℕ) → j +ℤ pos (suc n) <ℤ b → j +ℤ pos n <ℤ b
shorter j b n p = ground arith

module _ (o : Output) (xs : List ℤ) (h : stack o.vm ≡ some xs) where
  hold_all-stack : (t : List ℤ) → stack (hold_all t (forth_lesshash o)).vm ≡ some xs
  unfolding forth_lesshash forth_hold pop
  hold_all-stack [] = h
  hold_all-stack (c ∷ cs) =
      let o1 = hold_all cs (forth_lesshash o) in
      stack-pop (push c o1.vm) c xs (stack-push o1.vm c xs (hold_all-stack cs))

  hold_all-length : (t : List ℤ) → (hold_all t (forth_lesshash o)).picturedoutlen ≡ pos (length t)
  unfolding forth_lesshash forth_hold pop
  hold_all-length [] = refl
  hold_all-length (c ∷ cs) = ap inc (hold_all-length cs) ∙ ground arith

  hold_all-cells :
      (t : List ℤ)
      → let p = hold_all t (forth_lesshash o) in cells p.vm.m p.picturedoutpos (length t) ≡ t
  unfolding forth_lesshash forth_hold pop push
  hold_all-cells [] = refl
  hold_all-cells (c ∷ cs) =
      let p = hold_all cs (forth_lesshash o) in
      let a = dec p.picturedoutpos in
      ap₂ ◌∷◌ (update_self p.vm.m a c) (
        ap (λ b. cells (update p.vm.m a c) b (length cs)) (dec-inc p.picturedoutpos)
        ∙ cells-update p.vm.m (length cs) p.picturedoutpos a c (before p.picturedoutpos)
        ∙ hold_all-cells cs)

  hold_all-position :
      (t : List ℤ)
      → (hold_all t (forth_lesshash o)).picturedoutpos +ℤ pos (length t) ≡ o.vm.dp +ℤ paddistance
  unfolding forth_lesshash forth_hold pop
  hold_all-position [] = ground arith
  hold_all-position (c ∷ cs) = less_one _ _ (length cs) (hold_all-position cs)

  hold_all-outside :
      (t : List ℤ) (j : ℤ)
      → j +ℤ pos (length t) <ℤ o.vm.dp +ℤ paddistance
      → (hold_all t (forth_lesshash o)).vm.m j ≡ o.vm.m j
  unfolding forth_lesshash forth_hold pop push
  hold_all-outside [] j p = refl
  hold_all-outside (c ∷ cs) j p =
      let q = hold_all cs (forth_lesshash o) in
      update_ne q.vm.m (dec q.picturedoutpos) c j
        (below_position q.picturedoutpos j _ (length cs) (hold_all-position cs) p)
      ∙ hold_all-outside cs j (shorter j _ (length cs) p)

-- With two items on the stack, `<#`, any characters held from the last to the first, and `#>`
-- leave the address and the length of these characters in their order, in place of both items; they end
-- at the pad, and memory more than their length below the pad is as it was.
pub hold_all-hashmore :
    (o : Output) (t : List ℤ) (high low : ℤ) (xs : List ℤ)
    → stack o.vm ≡ some (high ∷ low ∷ xs)
    → let p = forth_hashmore (hold_all t (forth_lesshash o)) in
      (a : ℤ) × (stack p.vm ≡ some (pos (length t) ∷ a ∷ xs))
      × (cells p.vm.m a (length t) ≡ t)
      × (a +ℤ pos (length t) ≡ o.vm.dp +ℤ paddistance)
      × ((j : ℤ) → j +ℤ pos (length t) <ℤ o.vm.dp +ℤ paddistance → p.vm.m j ≡ o.vm.m j)
unfolding forth_hashmore
hold_all-hashmore o t high low xs h =
    let q = hold_all t (forth_lesshash o) in
    let on_stack = hold_all-stack o (high ∷ low ∷ xs) h t in
    let set = set_under_at q.vm.tos q.vm.s q.vm.sp high low xs q.picturedoutpos on_stack in
    (
      q.picturedoutpos,
      retop_at q.vm.tos (update q.vm.s q.vm.sp q.picturedoutpos) q.vm.sp high
            (q.picturedoutpos ∷ xs) q.picturedoutlen set
          ∙ ap (λ n. some (n ∷ q.picturedoutpos ∷ xs)) (hold_all-length o (high ∷ low ∷ xs) h t),
      hold_all-cells o (high ∷ low ∷ xs) h t,
      hold_all-position o (high ∷ low ∷ xs) h t,
      hold_all-outside o (high ∷ low ∷ xs) h t,
    )
