-- ===== src/Inner/Steps.antt =====
-- Runs of the inner interpreter that do not stop on their way.
use post.Prelude.{ℤ, pos, ℕ, suc, ◌+◌, ◌≡◌, refl, ap, ◌∙◌, arith}
use post.Vm.{Vm}
use post.Inner.{step, run}

-- Some passes of the loop take the machine from `v` to `u`, and none of them suspends it.
pub data Steps (t : ℤ → Vm → Vm) : Vm → Vm → Type 0 where
  done : {v : Vm} → Steps t v v
  next : {v u : Vm} → (step t v).suspended ≡ pos 0 → Steps t (step t v) u → Steps t v u

unit : (n : ℕ) → 0 + n ≡ n
unit n = omega arith

shift : (n k : ℕ) → suc n + k ≡ suc (n + k)
shift n k = omega arith

module _ (t : ℤ → Vm → Vm) where
  pub Steps-trans : {v u z : Vm} → Steps t v u → Steps t u z → Steps t v z
  Steps-trans done q = q
  Steps-trans (next e p) q = next e (Steps-trans p q)

  pub one_step : (v : Vm) → (step t v).suspended ≡ pos 0 → Steps t v (step t v)
  one_step v e = next e done

  run_next : (n : ℕ) (v : Vm) → (step t v).suspended ≡ pos 0 → run t (suc n) v ≡ run t n (step t v)
  unfolding run
  run_next n v e = rw e refl

  -- The loop takes as many passes as the run has, and has the rest of its fuel left.
  pub run-Steps :
      {v u : Vm} → Steps t v u → (n : ℕ) × ((fuel : ℕ) → run t (n + fuel) v ≡ run t fuel u)
  run-Steps (done {v}) = (0, λ fuel. ap (λ n. run t n v) (unit fuel))
  run-Steps (next {v} {u} e p) =
      let (n, h) = run-Steps p in
      (suc n, λ fuel. ap (λ k. run t k v) (shift n fuel) ∙ run_next (n + fuel) v e ∙ h fuel)
