-- ===== src/Inner/Conditional.antt =====
-- The inner interpreter on `IF ... THEN` and `IF ... ELSE ... THEN`.
use post.Prelude.{ℤ, Store, List, ◌∷◌, ◌≢◌, pos, ◌≡◌}
use post.Vm.{Vm, pop}
use post.Flow.Compile.{Tokens, compile_if, compile_else, compile_then}
use post.Flow.Structure.{Balanced, if-then, if-else-then}
use post.Words.{Token, Item, op_then, op_else}
use post.Words.Structured.{Structured, if_then, if_else_then}
use post.Words.Balance.{Above, Above-next, Above-if, Above-else, reached, reached-Balanced}
use post.Inner.Meaning.{Effects}
use post.Inner.Arrive.{Within, Realises}
use post.Inner.Structures.{
  Within-head, Within-tail, compile_if-Within, compile_if-TestsAt, first-Within, second-Within,
  compile_else-TestsAt, compile_else-JumpsTo,
}
use post.Inner.Runs.{Runs, Realised, both, on_zero, on_other}

module _ (t : ℤ → Vm → Vm) (In : ℤ → Type 0) (code : Store) (xt : Token → ℤ) (x : Tokens)
    (effects : Effects) (law : Realises t In code x effects) where
  go :
      (a b c : ℤ) (z z1 z2 : Vm)
      → Runs t In code xt x effects law a b z z1
      → Runs t In code xt x effects law b c z1 z2
      → Runs t In code xt x effects law a c z z2
  go a b c z z1 z2 f g = both t In code xt x effects law a b c z z1 z2 f g

  abbrev Goal : {is rest : List Item} (d : Structured is rest) (v : Vm) (z z' : Vm) → Type 0
  Goal d v z z' = Runs t In code xt x effects law v.dp (reached xt x d v).dp z z'

  abbrev Part : (is rest : List Item) (d : Structured is rest) (z z' : Vm) → Type 0
  Part is rest d z z' = Realised t In code xt x effects law is rest d z z'

  module _ {is after rest : List Item} (d : Structured is (op_then ∷ after))
      (e : Structured after rest) (v : Vm) (a : Above v)
      (w : Within In code v (reached xt x (if_then d e) v)) where
    abbrev if_end : Vm
    if_end = reached xt x d (compile_if x v)

    if_end-Balanced : Balanced (compile_if x v) if_end
    if_end-Balanced = reached-Balanced xt x d (compile_if x v) (Above-if xt x v a)

    then-Balanced : Balanced v (compile_then if_end)
    then-Balanced = (if-then x v if_end if_end-Balanced).0

    then-Above : Above (compile_then if_end)
    then-Above = Above-next v (compile_then if_end) then-Balanced a

    if-Within : Within In code v (compile_then if_end)
    unfolding reached
    if-Within =
        Within-head In code v (compile_then if_end) _
          (reached-Balanced xt x e (compile_then if_end) then-Above) w

    then-Within : Within In code (compile_then if_end) (reached xt x e (compile_then if_end))
    unfolding reached
    then-Within = Within-tail In code v (compile_then if_end) _ then-Balanced w

    pub taken_lem :
        (z z1 z2 : Vm)
        → z.tos ≢ pos 0
        → Part is (op_then ∷ after) d (pop z) z1
        → Part after rest e z1 z2
        → Goal (if_then d e) v z z2
    unfolding reached compile_then pop
    taken_lem z z1 z2 n f g =
        let c = compile_then if_end in
        go v.dp (compile_if x v).dp _ z (pop z) z2
          (on_other t In code xt x effects law v.dp (compile_if x v).dp c.dp z
            (compile_if-TestsAt In code t x effects law v if_end if_end-Balanced if-Within) n)
          (go (compile_if x v).dp c.dp _ (pop z) z1 z2
            (f (compile_if x v) (Above-if xt x v a)
              (compile_if-Within In code t x effects law v if_end if_end-Balanced if-Within))
            (g c then-Above then-Within))

    pub skipped_lem :
        (z z2 : Vm) → z.tos ≡ pos 0 → Part after rest e (pop z) z2 → Goal (if_then d e) v z z2
    unfolding reached
    skipped_lem z z2 n g =
        let c = compile_then if_end in
        go v.dp c.dp _ z (pop z) z2
          (on_zero t In code xt x effects law v.dp (compile_if x v).dp c.dp z
            (compile_if-TestsAt In code t x effects law v if_end if_end-Balanced if-Within) n)
          (g c then-Above then-Within)

  module _ {is others after rest : List Item} (d : Structured is (op_else ∷ others))
      (f : Structured others (op_then ∷ after)) (e : Structured after rest) (v : Vm) (a : Above v)
      (w : Within In code v (reached xt x (if_else_then d f e) v)) where
    abbrev first_end : Vm
    first_end = reached xt x d (compile_if x v)

    first-Balanced : Balanced (compile_if x v) first_end
    first-Balanced = reached-Balanced xt x d (compile_if x v) (Above-if xt x v a)

    first-Above : Above (compile_else x first_end)
    first-Above =
        Above-else xt x first_end (Above-next _ first_end first-Balanced (Above-if xt x v a))

    abbrev second_end : Vm
    second_end = reached xt x f (compile_else x first_end)

    second-Balanced : Balanced (compile_else x first_end) second_end
    second-Balanced = reached-Balanced xt x f (compile_else x first_end) first-Above

    whole-Balanced : Balanced v (compile_then second_end)
    whole-Balanced = (if-else-then x v first_end first-Balanced second_end second-Balanced).0

    whole-Above : Above (compile_then second_end)
    whole-Above = Above-next v (compile_then second_end) whole-Balanced a

    whole-Within : Within In code v (compile_then second_end)
    unfolding reached
    whole-Within =
        Within-head In code v (compile_then second_end) _
          (reached-Balanced xt x e (compile_then second_end) whole-Above) w

    after-Within :
        Within In code (compile_then second_end) (reached xt x e (compile_then second_end))
    unfolding reached
    after-Within = Within-tail In code v (compile_then second_end) _ whole-Balanced w

    pub first_lem :
        (z z1 z2 : Vm)
        → z.tos ≢ pos 0
        → Part is (op_else ∷ others) d (pop z) z1
        → Part after rest e z1 z2
        → Goal (if_else_then d f e) v z z2
    unfolding reached
    first_lem z z1 z2 n g k =
        let c = compile_then second_end in
        go v.dp (compile_if x v).dp _ z (pop z) z2
          (on_other t In code xt x effects law v.dp (compile_if x v).dp
            (compile_else x first_end).dp z
            (compile_else-TestsAt In code t x effects law v first_end second_end first-Balanced
              second-Balanced whole-Within)
            n)
          (go (compile_if x v).dp c.dp _ (pop z) z1 z2
            (go (compile_if x v).dp first_end.dp c.dp (pop z) z1 z1
              (g (compile_if x v) (Above-if xt x v a) (
                first-Within In code t x effects law v first_end second_end first-Balanced
                  second-Balanced whole-Within))
              (λ y.
                compile_else-JumpsTo In code t x effects law v first_end second_end first-Balanced
                  second-Balanced whole-Within y z1))
            (k c whole-Above after-Within))

    pub second_lem :
        (z z1 z2 : Vm)
        → z.tos ≡ pos 0
        → Part others (op_then ∷ after) f (pop z) z1
        → Part after rest e z1 z2
        → Goal (if_else_then d f e) v z z2
    unfolding reached compile_then pop
    second_lem z z1 z2 n g k =
        let c = compile_then second_end in
        go v.dp (compile_else x first_end).dp _ z (pop z) z2
          (on_zero t In code xt x effects law v.dp (compile_if x v).dp (compile_else x first_end).dp
            z
            (compile_else-TestsAt In code t x effects law v first_end second_end first-Balanced
              second-Balanced whole-Within)
            n)
          (go (compile_else x first_end).dp c.dp _ (pop z) z1 z2
            (g (compile_else x first_end) first-Above (
              second-Within In code t x effects law v first_end second_end first-Balanced
                second-Balanced whole-Within))
            (k c whole-Above after-Within))
