-- ===== src/Inner/Loops.antt =====
-- The inner interpreter on `BEGIN ... UNTIL` and `BEGIN ... WHILE ... REPEAT`.
use post.Prelude.{ℤ, Store, List, ◌∷◌, ◌≢◌, pos, ◌≡◌}
use post.Vm.{Vm, push, pop}
use post.Flow.Compile.{Tokens, compile_begin, compile_until, compile_while, compile_repeat}
use post.Flow.Structure.{Balanced, begin-until}
use post.Flow.While.{begin-while-repeat}
use post.Words.{Token, Item, op_begin, op_until, op_while, op_repeat}
use post.Words.Structured.{Structured, begin_until, begin_while_repeat}
use post.Words.Balance.{Above, Above-next, Above-begin, Above-while, reached, reached-Balanced}
use post.Inner.Meaning.{Effects}
use post.Inner.Arrive.{Within, Realises}
use post.Inner.Structures.{
  Within-head, Within-tail, until-Within, compile_until-TestsAt, before-Within, body-Within,
  compile_while-TestsAt, compile_repeat-JumpsTo,
}
use post.Inner.Runs.{Runs, Realised, both, on_zero, on_other}

module _ (t : ℤ → Vm → Vm) (In : ℤ → Type 0) (code : Store) (xt : Token → ℤ) (x : Tokens)
    (effects : Effects) (law : Realises t In code x effects) where
  go :
      (a b c : ℤ) (z z1 z2 : Vm)
      → Runs t In code xt x effects law a b z z1
      → Runs t In code xt x effects law b c z1 z2
      → Runs t In code xt x effects law a c z z2
  go a b c z z1 z2 f g = both t In code xt x effects law a b c z z1 z2 f g

  abbrev Goal : {is rest : List Item} (d : Structured is rest) (v : Vm) (z z' : Vm) → Type 0
  Goal d v z z' = Runs t In code xt x effects law v.dp (reached xt x d v).dp z z'

  abbrev Part : (is rest : List Item) (d : Structured is rest) (z z' : Vm) → Type 0
  Part is rest d z z' = Realised t In code xt x effects law is rest d z z'

  module _ {is after rest : List Item} (d : Structured is (op_until ∷ after))
      (e : Structured after rest) (v : Vm) (a : Above v)
      (w : Within In code v (reached xt x (begin_until d e) v)) where
    abbrev until_end : Vm
    until_end = reached xt x d (compile_begin v)

    until_end-Balanced : Balanced (compile_begin v) until_end
    until_end-Balanced = reached-Balanced xt x d (compile_begin v) (Above-begin xt x v a)

    until-Balanced : Balanced v (compile_until x until_end)
    until-Balanced = (begin-until x v until_end until_end-Balanced).0

    until-Above : Above (compile_until x until_end)
    until-Above = Above-next v (compile_until x until_end) until-Balanced a

    loop-Within : Within In code v (compile_until x until_end)
    unfolding reached
    loop-Within =
        Within-head In code v (compile_until x until_end) _
          (reached-Balanced xt x e (compile_until x until_end) until-Above) w

    onward-Within :
        Within In code (compile_until x until_end) (reached xt x e (compile_until x until_end))
    unfolding reached
    onward-Within = Within-tail In code v (compile_until x until_end) _ until-Balanced w

    round :
        (z z1 : Vm)
        → Part is (op_until ∷ after) d z z1
        → Runs t In code xt x effects law v.dp until_end.dp z z1
    unfolding compile_begin push
    round z z1 g =
        g (compile_begin v) (Above-begin xt x v a)
          (until-Within In code t x effects law v until_end until_end-Balanced loop-Within)

    pub until_done_lem :
        (z z1 z2 : Vm)
        → Part is (op_until ∷ after) d z z1
        → z1.tos ≢ pos 0
        → Part after rest e (pop z1) z2
        → Goal (begin_until d e) v z z2
    unfolding reached
    until_done_lem z z1 z2 g n k =
        let c = compile_until x until_end in
        go v.dp until_end.dp _ z z1 z2 (round z z1 g) (
          go until_end.dp c.dp _ z1 (pop z1) z2
            (on_other t In code xt x effects law until_end.dp c.dp (compile_begin v).dp z1
              (compile_until-TestsAt In code t x effects law v until_end until_end-Balanced
                loop-Within)
              n)
            (k c until-Above onward-Within))

    pub until_again_lem :
        (z z1 z2 : Vm)
        → Part is (op_until ∷ after) d z z1
        → z1.tos ≡ pos 0
        → Part (op_begin ∷ is) rest (begin_until d e) (pop z1) z2
        → Goal (begin_until d e) v z z2
    unfolding compile_begin push
    until_again_lem z z1 z2 g n k =
        let c = compile_until x until_end in
        go v.dp until_end.dp _ z z1 z2 (round z z1 g) (
          go until_end.dp v.dp _ z1 (pop z1) z2
            (on_zero t In code xt x effects law until_end.dp c.dp (compile_begin v).dp z1
              (compile_until-TestsAt In code t x effects law v until_end until_end-Balanced
                loop-Within)
              n)
            (k v a w))

  module _ {is others after rest : List Item} (d : Structured is (op_while ∷ others))
      (f : Structured others (op_repeat ∷ after)) (e : Structured after rest) (v : Vm) (a : Above v)
      (w : Within In code v (reached xt x (begin_while_repeat d f e) v)) where
    abbrev test_end : Vm
    test_end = reached xt x d (compile_begin v)

    test-Balanced : Balanced (compile_begin v) test_end
    test-Balanced = reached-Balanced xt x d (compile_begin v) (Above-begin xt x v a)

    body-Above : Above (compile_while x test_end)
    body-Above =
        Above-while xt x test_end (Above-next _ test_end test-Balanced (Above-begin xt x v a))

    abbrev body_end : Vm
    body_end = reached xt x f (compile_while x test_end)

    body-Balanced : Balanced (compile_while x test_end) body_end
    body-Balanced = reached-Balanced xt x f (compile_while x test_end) body-Above

    repeat-Balanced : Balanced v (compile_repeat x body_end)
    repeat-Balanced = (begin-while-repeat x v test_end body_end test-Balanced body-Balanced).0

    repeat-Above : Above (compile_repeat x body_end)
    repeat-Above = Above-next v (compile_repeat x body_end) repeat-Balanced a

    repeat-Within : Within In code v (compile_repeat x body_end)
    unfolding reached
    repeat-Within =
        Within-head In code v (compile_repeat x body_end) _
          (reached-Balanced xt x e (compile_repeat x body_end) repeat-Above) w

    past-Within :
        Within In code (compile_repeat x body_end) (reached xt x e (compile_repeat x body_end))
    unfolding reached
    past-Within = Within-tail In code v (compile_repeat x body_end) _ repeat-Balanced w

    to_test :
        (z z1 : Vm)
        → Part is (op_while ∷ others) d z z1
        → Runs t In code xt x effects law v.dp test_end.dp z z1
    unfolding compile_begin push
    to_test z z1 g = g (compile_begin v) (Above-begin xt x v a) (
        before-Within In code t x effects law v test_end body_end test-Balanced body-Balanced
          repeat-Within)

    pub while_done_lem :
        (z z1 z2 : Vm)
        → Part is (op_while ∷ others) d z z1
        → z1.tos ≡ pos 0
        → Part after rest e (pop z1) z2
        → Goal (begin_while_repeat d f e) v z z2
    unfolding reached
    while_done_lem z z1 z2 g n k =
        let c = compile_repeat x body_end in
        go v.dp test_end.dp _ z z1 z2 (to_test z z1 g) (
          go test_end.dp c.dp _ z1 (pop z1) z2
            (on_zero t In code xt x effects law test_end.dp (compile_while x test_end).dp c.dp z1
              (compile_while-TestsAt In code t x effects law v test_end body_end test-Balanced
                body-Balanced repeat-Within)
              n)
            (k c repeat-Above past-Within))

    pub while_again_lem :
        (z z1 z2 z3 : Vm)
        → Part is (op_while ∷ others) d z z1
        → z1.tos ≢ pos 0
        → Part others (op_repeat ∷ after) f (pop z1) z2
        → Part (op_begin ∷ is) rest (begin_while_repeat d f e) z2 z3
        → Goal (begin_while_repeat d f e) v z z3
    unfolding compile_begin push
    while_again_lem z z1 z2 z3 g n k l =
        let c = compile_repeat x body_end in
        let inner = compile_while x test_end in
        go v.dp test_end.dp _ z z1 z3 (to_test z z1 g) (
          go test_end.dp inner.dp _ z1 (pop z1) z3
            (on_other t In code xt x effects law test_end.dp inner.dp c.dp z1
              (compile_while-TestsAt In code t x effects law v test_end body_end test-Balanced
                body-Balanced repeat-Within)
              n)
            (go inner.dp v.dp _ (pop z1) z2 z3
              (go inner.dp body_end.dp v.dp (pop z1) z2 z2
                (k inner body-Above (
                  body-Within In code t x effects law v test_end body_end test-Balanced
                    body-Balanced repeat-Within))
                (λ y.
                  compile_repeat-JumpsTo In code t x effects law v test_end body_end test-Balanced
                    body-Balanced repeat-Within y z2))
              (l v a w)))
