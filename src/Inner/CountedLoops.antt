-- ===== src/Inner/CountedLoops.antt =====
-- The inner interpreter on `DO ... LOOP`.
use post.Prelude.{ℤ, ◌+ℤ◌, ◌≤ℤ◌, ◌<ℤ◌, Store, List, ◌∷◌, ◌≡◌, refl, arith, ap, ◌∙◌, sym}
use mathlib.Core.Path.{subst}
use post.Vm.{Vm, inc}
use post.Flow.Compile.{Tokens, comma, compile_do, make_do, compile_loop}
use post.Flow.Structure.{Balanced}
use post.Flow.Nested.{do-loop_Balanced, loop_forward}
use post.Words.{Token, Item, op_loop}
use post.Words.Structured.{Structured, do_loop}
use post.Words.Balance.{Above, Above-next, Above-do, reached, reached-Balanced}
use post.Inner.Meaning.{Effects, entered, bumped, left, AtLimit}
use post.Inner.Arrive.{Within, Result, Realises}
use post.Inner.Counted.{
  do_opcode, do_body, loop_opcode, loop_distance, back, enter-Result, loop_end-Result,
  loop_again-Result,
}
use post.Inner.Structures.{Within-head, Within-tail, Within-inner, step_over, ≤ℤ-refl, weaken}
use post.Inner.Runs.{Runs, Realised, both}

module _ (t : ℤ → Vm → Vm) (In : ℤ → Type 0) (code : Store) (xt : Token → ℤ) (x : Tokens)
    (effects : Effects) (law : Realises t In code x effects) where
  go :
      (a b c : ℤ) (z z1 z2 : Vm)
      → Runs t In code xt x effects law a b z z1
      → Runs t In code xt x effects law b c z1 z2
      → Runs t In code xt x effects law a c z z2
  go a b c z z1 z2 f g = both t In code xt x effects law a b c z z1 z2 f g

  abbrev Goal : {is rest : List Item} (d : Structured is rest) (v : Vm) (z z' : Vm) → Type 0
  Goal d v z z' = Runs t In code xt x effects law v.dp (reached xt x d v).dp z z'

  abbrev Part : (is rest : List Item) (d : Structured is rest) (z z' : Vm) → Type 0
  Part is rest d z z' = Realised t In code xt x effects law is rest d z z'

  -- The rounds of a loop around the structures `d` do what takes `z` to `z'`.
  abbrev pub Turning : (is rest : List Item) (d : Structured is rest) (z z' : Vm) → Type 0
  Turning is rest d z z' =
      (v : Vm)
      → Above v
      → Within In code v (compile_loop x (reached xt x d (compile_do x v)))
      → Runs t In code xt x effects law (compile_do x v).dp
          (compile_loop x (reached xt x d (compile_do x v))).dp z z'

  do-Above : (v : Vm) → Above v → Above (compile_do x v)
  unfolding compile_do
  do-Above v a = Above-do xt x v x.x_brdo a

  body-Balanced :
      {is rest : List Item} (d : Structured is rest) (v : Vm)
      → Above v
      → Balanced (make_do x x.x_brdo v) (reached xt x d (compile_do x v))
  unfolding compile_do
  body-Balanced d v a = reached-Balanced xt x d (compile_do x v) (do-Above v a)

  module _ {is rest : List Item} (d : Structured is rest) (v : Vm) (a : Above v)
      (w : Within In code v (compile_loop x (reached xt x d (compile_do x v)))) where
    abbrev last : Vm
    last = reached xt x d (compile_do x v)

    last-Balanced : Balanced (make_do x x.x_brdo v) last
    last-Balanced = body-Balanced d v a

    do_dp : (compile_do x v).dp ≡ inc (inc v.dp)
    unfolding compile_do make_do comma
    do_dp = refl

    loop_dp : (compile_loop x last).dp ≡ inc (inc last.dp)
    unfolding compile_loop comma
    loop_dp = refl

    size : inc (inc v.dp) ≤ℤ last.dp
    size = loop_forward x x.x_brdo v last a last-Balanced

    before_end : last.dp ≤ℤ (compile_loop x last).dp
    before_end = subst (λ n. last.dp ≤ℤ n) (sym loop_dp) (step_over last.dp)

    cell_inside : (c : ℤ) → v.dp ≤ℤ c → c <ℤ inc (inc last.dp) → In c
    cell_inside c p q = w.inside c p (subst (λ n. c <ℤ n) (sym loop_dp) q)

    cell_same : (c : ℤ) → v.dp ≤ℤ c → c <ℤ inc (inc last.dp) → code c ≡ (compile_loop x last).m c
    cell_same c p q = w.same c p (subst (λ n. c <ℤ n) (sym loop_dp) q)

    inner-Within : Within In code (compile_do x v) last
    inner-Within =
        Within-inner In code v (compile_loop x last) (compile_do x v) last w
          (subst (λ n. v.dp ≤ℤ n) (sym do_dp) (step_over v.dp)) before_end
          (λ c p q. do_body x x.x_brdo v last a last-Balanced c (subst (λ n. n ≤ℤ c) do_dp p) q)

    loop_at : v.dp ≤ℤ last.dp
    loop_at = weaken v.dp last.dp size

    round :
        (z z1 : Vm)
        → Part is rest d z z1
        → Runs t In code xt x effects law (compile_do x v).dp last.dp z z1
    round z z1 g = g (compile_do x v) (do-Above v a) inner-Within

    at_end : last.dp <ℤ inc (inc last.dp)
    at_end = ground arith

    at_distance : inc last.dp <ℤ inc (inc last.dp)
    at_distance = ground arith

    after_loop : v.dp ≤ℤ inc last.dp
    after_loop = let p = loop_at in ground arith

    pub last_lem :
        (z z1 : Vm)
        → Part is rest d z z1
        → AtLimit (bumped z1)
        → Runs t In code xt x effects law
            (compile_do x v).dp
            (compile_loop x last).dp
            z
            (left (bumped z1))
    last_lem z z1 g l =
        go (compile_do x v).dp last.dp _ z z1 (left (bumped z1)) (round z z1 g) (λ y e p h.
          subst (Result t In code y (left (bumped z1))) (sym loop_dp) (
            loop_end-Result t In code x effects law last.dp y z1 e p h
              (cell_inside last.dp loop_at at_end)
              (cell_same last.dp loop_at at_end ∙ loop_opcode x x.x_brdo v last a last-Balanced) l))

    pub next_lem :
        (z z1 z2 : Vm)
        → Part is rest d z z1
        → ¬ AtLimit (bumped z1)
        → Turning is rest d (bumped z1) z2
        → Runs t In code xt x effects law (compile_do x v).dp (compile_loop x last).dp z z2
    next_lem z z1 z2 g l k = go (compile_do x v).dp last.dp _ z z1 z2 (round z z1 g) (
        go last.dp (compile_do x v).dp _ z1 (bumped z1) z2
          (λ y e p h.
            loop_again-Result t In code x effects law last.dp (compile_do x v).dp y z1 e p h
              (cell_inside last.dp loop_at at_end)
              (cell_same last.dp loop_at at_end ∙ loop_opcode x x.x_brdo v last a last-Balanced)
              (cell_inside (inc last.dp) after_loop at_distance)
              (ap (λ n. inc last.dp +ℤ n)
                  (cell_same (inc last.dp) after_loop at_distance
                    ∙ loop_distance x x.x_brdo v last a last-Balanced)
                ∙ back v.dp last.dp
                ∙ sym do_dp)
              l)
          (k v a w))

    pub enter_lem :
        (z : Vm) → Runs t In code xt x effects law v.dp (compile_do x v).dp z (entered z)
    enter_lem z y e p h = subst (Result t In code y (entered z)) (sym do_dp) (
        enter-Result t In code x effects law v.dp y z e p h
          (cell_inside v.dp (≤ℤ-refl v.dp) start_inside)
          (cell_same v.dp (≤ℤ-refl v.dp) start_inside
            ∙ do_opcode x x.x_brdo v last a last-Balanced))
      where
        start_inside : v.dp <ℤ inc (inc last.dp)
        start_inside = let p = loop_at in ground arith

  module _ {is after rest : List Item} (d : Structured is (op_loop ∷ after))
      (e : Structured after rest) (v : Vm) (a : Above v)
      (w : Within In code v (reached xt x (do_loop d e) v)) where
    abbrev loop_done : Vm
    loop_done = compile_loop x (reached xt x d (compile_do x v))

    done-Balanced : Balanced v loop_done
    done-Balanced =
        do-loop_Balanced x x.x_brdo v (reached xt x d (compile_do x v)) a (body-Balanced d v a)

    done-Above : Above loop_done
    done-Above = Above-next v loop_done done-Balanced a

    done-Within : Within In code v loop_done
    unfolding reached
    done-Within = Within-head In code v loop_done _ (reached-Balanced xt x e loop_done done-Above) w

    past-Within : Within In code loop_done (reached xt x e loop_done)
    unfolding reached
    past-Within = Within-tail In code v loop_done _ done-Balanced w

    pub counted_lem :
        (z z1 z2 : Vm)
        → Turning is (op_loop ∷ after) d (entered z) z1
        → Part after rest e z1 z2
        → Goal (do_loop d e) v z z2
    unfolding reached
    counted_lem z z1 z2 g k =
        go v.dp (compile_do x v).dp _ z (entered z) z2 (λ y. enter_lem d v a done-Within z y)
          (go (compile_do x v).dp loop_done.dp _ (entered z) z1 z2 (g v a done-Within)
            (k loop_done done-Above past-Within))
