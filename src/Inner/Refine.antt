-- ===== src/Inner/Refine.antt =====
-- Structured code means what the inner interpreter does with the cells compiled for it.
use post.Prelude.{ℤ, ◌≤ℤ◌, ◌<ℤ◌, Store, List, [], ◌≡◌, refl, sym}
use mathlib.Core.Path.{subst}
use post.Vm.{Vm}
use post.Flow.Compile.{Tokens, innerloop}
use post.Words.{Token, Item, compile_items, compile_cells}
use post.Words.Structured.{Structured}
use post.Words.Balance.{
  Above-next, cells-Balanced, reached, reached-Balanced, compile_items-reached,
}
use post.Inner.Meaning.{
  view, Effects, Means, ends, does, taken, skipped, first, second, until_done, until_again,
  while_done, while_again, counted, Rounds, last_round, next_round,
}
use post.Inner.Arrive.{Holds, Within, Result, Realises, here}
use post.Inner.Structures.{Within-head, Within-tail}
use post.Inner.Runs.{Realised, both, Straight-Runs}
use post.Inner.Conditional.{taken_lem, skipped_lem, first_lem, second_lem}
use post.Inner.CountedLoops.{Turning, counted_lem, last_lem, next_lem}
use post.Inner.Loops.{until_done_lem, until_again_lem, while_done_lem, while_again_lem}

module _ (t : ℤ → Vm → Vm) (In : ℤ → Type 0) (code : Store) (xt : Token → ℤ) (x : Tokens)
    (effects : Effects) (law : Realises t In code x effects) where
  mutual
    unfolding reached

    pub Means-Realised :
        {is rest : List Item} {d : Structured is rest} {z z' : Vm}
        → Means xt x effects is rest d z z'
        → Realised t In code xt x effects law is rest d z z'
    Means-Realised ends v a w = λ y e p h. here t In code y _ v.dp e p h
    Means-Realised (does {cs} {d} {z} {z1} {z2} r q) v a w =
        let v1 = compile_cells xt x cs v in
        let b = cells-Balanced xt x cs v in
        let a1 = Above-next v v1 b a in
        let k = reached-Balanced xt x d v1 a1 in
        let u = reached xt x d v1 in
        both t In code xt x effects law v.dp v1.dp u.dp z z1 z2
          (Straight-Runs t In code xt x effects law r v (Within-head In code v v1 u k w))
          (Means-Realised q v1 a1 (Within-tail In code v v1 u b w))
    Means-Realised (taken {d} {e} {z} {z1} {z2} n q r) v a w =
        taken_lem t In code xt x effects law d e v a w z z1 z2 n (Means-Realised q)
          (Means-Realised r)
    Means-Realised (skipped {d} {e} {z} {z2} n r) v a w =
        skipped_lem t In code xt x effects law d e v a w z z2 n (Means-Realised r)
    Means-Realised (first {d} {f} {e} {z} {z1} {z2} n q r) v a w =
        first_lem t In code xt x effects law d f e v a w z z1 z2 n (Means-Realised q)
          (Means-Realised r)
    Means-Realised (second {d} {f} {e} {z} {z1} {z2} n q r) v a w =
        second_lem t In code xt x effects law d f e v a w z z1 z2 n (Means-Realised q)
          (Means-Realised r)
    Means-Realised (until_done {d} {e} {z} {z1} {z2} q n r) v a w =
        until_done_lem t In code xt x effects law d e v a w z z1 z2 (Means-Realised q) n
          (Means-Realised r)
    Means-Realised (until_again {d} {e} {z} {z1} {z2} q n r) v a w =
        until_again_lem t In code xt x effects law d e v a w z z1 z2 (Means-Realised q) n
          (Means-Realised r)
    Means-Realised (while_done {d} {f} {e} {z} {z1} {z2} q n r) v a w =
        while_done_lem t In code xt x effects law d f e v a w z z1 z2 (Means-Realised q) n
          (Means-Realised r)
    Means-Realised (while_again {d} {f} {e} {z} {z1} {z2} {z3} q n r s) v a w =
        while_again_lem t In code xt x effects law d f e v a w z z1 z2 z3 (Means-Realised q) n
          (Means-Realised r) (Means-Realised s)
    Means-Realised (counted {d} {e} {z} {z1} {z2} q r) v a w =
        counted_lem t In code xt x effects law d e v a w z z1 z2 (Rounds-Turning q)
          (Means-Realised r)

    Rounds-Turning :
        {is rest : List Item} {d : Structured is rest} {z z' : Vm}
        → Rounds xt x effects is rest d z z'
        → Turning t In code xt x effects law is rest d z z'
    Rounds-Turning (last_round {d} {z} {z1} q l) v a w =
        last_lem t In code xt x effects law d v a w z z1 (Means-Realised q) l
    Rounds-Turning (next_round {d} {z} {z1} {z2} q l r) v a w =
        next_lem t In code xt x effects law d v a w z z1 z2 (Means-Realised q) l (Rounds-Turning r)

-- The cells that compiling `is` from `v` writes.
abbrev pub Cells : (xt : Token → ℤ) (x : Tokens) (is : List Item) (v : Vm) → ℤ → Type 0
Cells xt x is v a = (v.dp ≤ℤ a) × (a <ℤ (compile_items xt x is v).dp)

-- The inner interpreter implements the meaning of structured code. The calls `is` of the compiling
-- functions form closed structures `d`, and the compiler stands above the cell of `innerloop`. The
-- words have the effects that are told of them and leave the compiled cells alone. Then the cells that
-- the calls compile, run from the first one in a machine with the view `z`, take it to the cell after
-- the last with the view `z'`, for all `z` and `z'` that the structures' meaning relates; no pass on the
-- way suspends the machine.
pub compile_items-Result :
    (t : ℤ → Vm → Vm) (xt : Token → ℤ) (x : Tokens) (effects : Effects) (is : List Item)
    (d : Structured is []) (v z z' y : Vm)
    → innerloop <ℤ v.dp
    → Realises t (Cells xt x is v) (compile_items xt x is v).m x effects
    → Means xt x effects is [] d z z'
    → Holds (Cells xt x is v) (compile_items xt x is v).m z
    → view y ≡ z
    → y.ip ≡ v.dp
    → Result t (Cells xt x is v) (compile_items xt x is v).m y z' (compile_items xt x is v).dp
unfolding compile_items
compile_items-Result t xt x effects is d v z z' y a law q h e p =
    let u = compile_items xt x is v in
    let same : reached xt x d v ≡ u = sym (compile_items-reached xt x d v) in
    let w : Within (Cells xt x is v) u.m v u = record {
      inside = λ b r s. (r, s);
      same = λ b r s. refl;
    } in
    let w' = subst (Within (Cells xt x is v) u.m v) (sym same) w in
    subst (λ (c : Vm). Result t (Cells xt x is v) u.m y z' c.dp) same
      (Means-Realised t (Cells xt x is v) u.m xt x effects law q v a w' y e p h)
