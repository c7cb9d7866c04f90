-- ===== src/Inner/Call.antt =====
-- The inner interpreter on a word that is compiled by `colon`, and `virtualmachine` on code that ends
-- with a word that suspends the machine.
use post.Prelude.{ℤ, pos, ◌<ℤ◌, List, [], ℕ, suc, ◌+◌, some, ◌≡◌, ◌≢◌, refl, ap, ◌∙◌, sym, ==ℤ-ne}
use post.Vm.{Vm, inc}
use post.Flow.Compile.{Tokens, innerloop}
use post.Words.{Token, Item, compile_items}
use post.Words.Structured.{Structured}
use post.Inner.{step, run, virtualmachine}
use post.Inner.Steps.{run-Steps}
use post.Inner.Meaning.{view, Effects, Means}
use post.Inner.Arrive.{Holds, Realises}
use post.Inner.Refine.{Cells, compile_items-Result}

-- `virtualmachine` returns from structured code that is followed by a word that always suspends the
-- machine, where the structures have a meaning `z'` in the machine that it starts: with enough
-- passes, and with any more, it ends with the machine that this word leaves when it is run after the
-- code, in a machine with the view `z'`.
pub virtualmachine-returns :
    (t : ℤ → Vm → Vm) (xt : Token → ℤ) (x : Tokens) (effects : Effects) (is : List Item)
    (d : Structured is []) (v y z' : Vm) (x_stop : ℤ)
    → innerloop <ℤ v.dp
    → Realises t (Cells xt x is v) (compile_items xt x is v).m x effects
    → Means xt x effects is [] d (view (record y { suspended = pos 0 })) z'
    → ((a : ℤ) → Cells xt x is v a → y.m a ≡ (compile_items xt x is v).m a)
    → z'.m (compile_items xt x is v).dp ≡ x_stop
    → ((s : Vm) → (t x_stop s).suspended ≢ pos 0)
    → (n : ℕ) × (end : Vm) × (view end ≡ z')
      × (end.ip ≡ (compile_items xt x is v).dp)
      × ((fuel : ℕ) → virtualmachine t (n + suc fuel) v.dp y ≡ some (step t end))
unfolding virtualmachine view step run
virtualmachine-returns t xt x effects is d v y z' x_stop a law q code last stops =
    let u = compile_items xt x is v in
    let y0 = record y { suspended = pos 0; ip = v.dp } in
    let good : Holds (Cells xt x is v) u.m (view y0) = record { running = refl; holds = code } in
    let r =
      (compile_items-Result t xt x effects is d v (view y0) z' y0 a law q good refl refl).arrives in
    let (n, h) = run-Steps t r.steps in
    let token : r.end.m r.end.ip ≡ x_stop =
      ap r.end.m r.place ∙ ap (λ (s : Vm). s.m u.dp) r.seen ∙ last in
    let off = ==ℤ-ne (step t r.end).suspended (pos 0) (λ e.
      stops (record r.end { w = r.end.m r.end.ip; ip = inc r.end.ip })
        (ap (λ i. (t i (record r.end { w = r.end.m r.end.ip; ip = inc r.end.ip })).suspended)
            (sym token)
          ∙ e)) in
    (n, r.end, r.seen, r.place, λ fuel. h (suc fuel) ∙ rw off refl)
