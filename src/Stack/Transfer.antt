-- ===== src/Stack/Transfer.antt =====
-- The words that move items to the return stack and back.
use post.Prelude.{ℤ, pos, ◌-ℤ◌, update, some, List, ◌∷◌, ◌≡◌, arith, ◌∙◌, ap, update_self, inc-dec}
use post.Vm.{Vm, push, rpush, inc, dec}
use post.Stack.{forth_tor, forth_rfrom, forth_rfetch, forth_2tor, forth_2rfrom, forth_2rfetch}
use post.Stack.View.{stack, stack-push, stack-pop, top_at, under_at, nip_at, pop_at}

-- The lower of the two cells that `2>r` writes.
under : (v : Vm) (a : ℤ) → v.s v.sp ≡ a → (forth_2tor v).r ((forth_2tor v).rp -ℤ pos 1) ≡ a
unfolding forth_2tor
under v a h = ground arith

module _ (v : Vm) (xs : List ℤ) where
  -- With an item on the data stack, `>r` takes it off; `r@` and `r>` bring it back, and `r>` leaves
  -- the return stack as deep as it was.
  pub tor-rfrom :
      (a : ℤ)
      → stack v ≡ some (a ∷ xs)
      → (stack (forth_tor v) ≡ some xs)
        × (stack (forth_rfetch (forth_tor v)) ≡ some (a ∷ xs))
        × (stack (forth_rfrom (forth_tor v)) ≡ some (a ∷ xs))
        × ((forth_rfrom (forth_tor v)).rp ≡ v.rp)
  unfolding forth_tor forth_rfrom forth_rfetch
  tor-rfrom a h =
      let top = top_at v.tos v.s v.sp a xs h in
      let u = forth_tor v in
      let moved : u.r u.rp ≡ a = update_self v.r (inc v.rp) v.tos ∙ top in
      let left : stack u ≡ some xs = stack-pop (rpush v.tos v) a xs h in
      let back = stack-push u (u.r u.rp) xs left ∙ ap (λ x. some (x ∷ xs)) moved in
      (left, back, back, inc-dec v.rp)

  -- With two items on the data stack, `2>r` takes them off; `2r@` and `2r>` bring them back in
  -- their order, and `2r>` leaves the return stack as deep as it was.
  pub 2tor-2rfrom :
      (a b : ℤ)
      → stack v ≡ some (b ∷ a ∷ xs)
      → (stack (forth_2tor v) ≡ some xs)
        × (stack (forth_2rfetch (forth_2tor v)) ≡ some (b ∷ a ∷ xs))
        × (stack (forth_2rfrom (forth_2tor v)) ≡ some (b ∷ a ∷ xs))
        × ((forth_2rfrom (forth_2tor v)).rp ≡ v.rp)
  unfolding forth_2tor forth_2rfrom forth_2rfetch push
  2tor-2rfrom a b h =
      let top = top_at v.tos v.s v.sp b (a ∷ xs) h in
      let u = forth_2tor v in
      let first : u.r u.rp ≡ b =
        update_self (update v.r (inc v.rp) (v.s v.sp)) (inc (inc v.rp)) v.tos ∙ top in
      let below_top : u.r (u.rp -ℤ pos 1) ≡ a = under v a (under_at v.tos v.s v.sp b a xs h) in
      let left : stack u ≡ some xs =
        pop_at v.tos v.s (dec v.sp) b xs (nip_at v.tos v.s v.sp b a xs h) in
      let back : stack (push (u.r u.rp) (push (u.r (u.rp -ℤ pos 1)) u)) ≡ some (b ∷ a ∷ xs) =
        stack-push (push (u.r (u.rp -ℤ pos 1)) u) (u.r u.rp) (u.r (u.rp -ℤ pos 1) ∷ xs)
          (stack-push u (u.r (u.rp -ℤ pos 1)) xs left)
        ∙ cc (first, below_top) in
      (left, back, back, ground arith)
