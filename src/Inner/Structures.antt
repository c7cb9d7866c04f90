-- ===== src/Inner/Structures.antt =====
-- Compiled structures in the memory of a machine that runs: where their tests and their branches go.
use post.Prelude.{
  ℤ, pos, ◌==ℤ◌, ◌≤ℤ◌, ◌<ℤ◌, Store, if◌then◌else◌, ◌≡◌, refl, arith, ◌∙◌, update_self,
}
use post.Vm.{Vm, push, pop, inc}
use post.Flow.{forth_branch, forth_0branch}
use post.Flow.Compile.{
  Tokens, comma, compile_if, compile_else, compile_then, compile_begin, compile_until,
  compile_while, compile_repeat,
}
use post.Flow.Structure.{Balanced, if-then, if-else-then, begin-until}
use post.Flow.While.{begin-while-repeat}
use post.Inner.Meaning.{view, Effects}
use post.Inner.Arrive.{Holds, Within, Result, Realises, zero_branch-Result, branch-Result}
use post.Inner.Cells.{
  if_opcode, if_body, else_opcode, else_first, else_branch, else_second, until_opcode, until_body,
  while_opcode, while_first, while_second, repeat_opcode, if_size, while_size, else_size,
}

pub ≤ℤ-refl : (a : ℤ) → a ≤ℤ a
≤ℤ-refl a = ground arith

pub ≤ℤ-trans : (a b c : ℤ) → a ≤ℤ b → b ≤ℤ c → a ≤ℤ c
≤ℤ-trans a b c p q = omega arith

pub step_over : (a : ℤ) → a ≤ℤ inc (inc a)
step_over a = ground arith

pub weaken : (a b : ℤ) → inc (inc a) ≤ℤ b → a ≤ℤ b
weaken a b p = ≤ℤ-trans a _ b (step_over a) p

pub room : (a b : ℤ) → inc (inc a) ≤ℤ b → inc a <ℤ b
room a b p = ground arith

module _ (In : ℤ → Type 0) (code : Store) where
  -- A part of compiled code, whose cells later compiling left alone.
  pub Within-inner :
      (v u v1 u1 : Vm)
      → Within In code v u
      → v.dp ≤ℤ v1.dp
      → u1.dp ≤ℤ u.dp
      → ((a : ℤ) → v1.dp ≤ℤ a → a <ℤ u1.dp → u.m a ≡ u1.m a)
      → Within In code v1 u1
  Within-inner v u v1 u1 w p q f = record {
    inside = λ a r s. w.inside a (ground arith) (ground arith);
    same = λ a r s. w.same a (ground arith) (ground arith) ∙ f a r s;
  }

  pub Within-head : (v v1 u : Vm) → Balanced v1 u → Within In code v u → Within In code v v1
  Within-head v v1 u b w =
      let f = b.forward in
      Within-inner v u v v1 w (ground arith) (ground arith) (λ a r s. b.code a s)

  pub Within-tail : (v v1 u : Vm) → Balanced v v1 → Within In code v u → Within In code v1 u
  Within-tail v v1 u b w =
      let f = b.forward in Within-inner v u v1 u w (ground arith) (ground arith) (λ a r s. refl)

  pub first_cell :
      (n : ℤ) (v u : Vm) → Balanced (comma n v) u → Within In code v u → In v.dp × (code v.dp ≡ n)
  unfolding comma
  first_cell n v u b w =
      let f = b.forward in
      (
        w.inside v.dp (ground arith) (ground arith),
        w.same v.dp (ground arith) (ground arith)
            ∙ b.code v.dp (ground arith)
            ∙ update_self v.m v.dp n,
      )

  module _ (t : ℤ → Vm → Vm) (x : Tokens) (effects : Effects)
      (law : Realises t In code x effects) where
    -- A test at `c` whose cells `u` compiled.
    abbrev pub TestsAt : (c taken skipped : ℤ) → Type 0
    TestsAt c taken skipped =
        (y z : Vm)
        → view y ≡ z
        → y.ip ≡ c
        → Holds In code z
        → Result t In code y (pop z) (if z.tos ==ℤ pos 0 then skipped else taken)

    abbrev pub JumpsTo : (c target : ℤ) → Type 0
    JumpsTo c target =
        (y z : Vm) → view y ≡ z → y.ip ≡ c → Holds In code z → Result t In code y z target

    -- The test whose token and distance are at `c` and after it.
    test :
        (v u : Vm) (c taken skipped : ℤ)
        → Within In code v u
        → v.dp ≤ℤ c
        → inc c <ℤ u.dp
        → u.m c ≡ x.x_0branch
        → ((y : Vm)
            → y.m ≡ u.m
            → y.ip ≡ inc c
            → (forth_0branch y).ip ≡ (if y.tos ==ℤ pos 0 then skipped else taken))
        → TestsAt c taken skipped
    test v u c taken skipped w from to o f y z e p good =
        zero_branch-Result t In code x effects law y z u.m c skipped taken f e p good
          (w.inside c from (ground arith)) (w.same c from (ground arith) ∙ o)
          (w.inside (inc c) (ground arith) to) (w.same (inc c) (ground arith) to)

    jump_there :
        (v u : Vm) (c target : ℤ)
        → Within In code v u
        → v.dp ≤ℤ c
        → inc c <ℤ u.dp
        → u.m c ≡ x.x_branch
        → ((y : Vm) → y.m ≡ u.m → y.ip ≡ inc c → (forth_branch y).ip ≡ target)
        → JumpsTo c target
    jump_there v u c target w from to o f y z e p good =
        branch-Result t In code x effects law y z u.m c target f e p good
          (w.inside c from (ground arith)) (w.same c from (ground arith) ∙ o)
          (w.inside (inc c) (ground arith) to) (w.same (inc c) (ground arith) to)

    module _ (v u1 : Vm) (h : Balanced (compile_if x v) u1)
        (w : Within In code v (compile_then u1)) where
      pub compile_if-Within : Within In code (compile_if x v) u1
      unfolding compile_if compile_then comma push pop
      compile_if-Within =
          Within-inner v (compile_then u1) (compile_if x v) u1 w (ground arith) (ground arith)
            (λ a p q. if_body x v u1 h a p)

      pub compile_if-TestsAt : TestsAt v.dp (compile_if x v).dp (compile_then u1).dp
      unfolding compile_if compile_then comma push pop
      compile_if-TestsAt =
          let size = if_size x v u1 h in
          test v (compile_then u1) v.dp _ _ w (ground arith) (ground arith) (if_opcode x v u1 h)
            (if-then x v u1 h).1

    module _ (v u1 u2 : Vm) (h : Balanced (compile_if x v) u1) (k : Balanced (compile_else x u1) u2)
        (w : Within In code v (compile_then u2)) where
      else_order : inc (inc u1.dp) ≤ℤ u2.dp
      else_order = let size = else_size x v u1 h in let f = k.forward in ground arith

      pub first-Within : Within In code (compile_if x v) u1
      unfolding compile_if compile_then comma push pop
      first-Within =
          Within-inner v (compile_then u2) (compile_if x v) u1 w (step_over v.dp)
            (weaken u1.dp u2.dp else_order) (λ a p q. else_first x v u1 h u2 k a p q)

      pub second-Within : Within In code (compile_else x u1) u2
      unfolding compile_else compile_then comma push pop
      second-Within =
          Within-inner v (compile_then u2) (compile_else x u1) u2 w
            (≤ℤ-trans v.dp u1.dp _ (weaken v.dp u1.dp (if_size x v u1 h)) (step_over u1.dp))
            (≤ℤ-refl u2.dp) (λ a p q. else_second x v u1 h u2 k a p)

      pub compile_else-TestsAt : TestsAt v.dp (compile_if x v).dp (compile_else x u1).dp
      unfolding compile_if compile_else compile_then comma push pop
      compile_else-TestsAt =
          test v (compile_then u2) v.dp _ _ w (≤ℤ-refl v.dp)
            (room v.dp u2.dp
              (≤ℤ-trans _ u1.dp u2.dp (if_size x v u1 h) (weaken u1.dp u2.dp else_order)))
            (else_opcode x v u1 h u2 k) (if-else-then x v u1 h u2 k).1

      pub compile_else-JumpsTo : JumpsTo u1.dp (compile_then u2).dp
      unfolding compile_else compile_then comma push pop
      compile_else-JumpsTo =
          jump_there v (compile_then u2) u1.dp _ w (weaken v.dp u1.dp (if_size x v u1 h))
            (room u1.dp u2.dp else_order) (else_branch x v u1 h u2 k) (if-else-then x v u1 h u2 k).2

    module _ (v u1 : Vm) (h : Balanced (compile_begin v) u1)
        (w : Within In code v (compile_until x u1)) where
      pub until-Within : Within In code (compile_begin v) u1
      unfolding compile_begin compile_until comma push pop
      until-Within =
          Within-inner v (compile_until x u1) (compile_begin v) u1 w (ground arith) (ground arith)
            (λ a p q. until_body x u1 a q)

      pub compile_until-TestsAt : TestsAt u1.dp (compile_until x u1).dp (compile_begin v).dp
      unfolding compile_begin compile_until comma push pop
      compile_until-TestsAt =
          let f = h.forward in
          test v (compile_until x u1) u1.dp _ _ w (ground arith) (ground arith) (until_opcode x u1)
            (begin-until x v u1 h).1

    module _ (v u1 u2 : Vm) (h : Balanced (compile_begin v) u1)
        (k : Balanced (compile_while x u1) u2) (w : Within In code v (compile_repeat x u2)) where
      begin_order : v.dp ≤ℤ u1.dp
      unfolding compile_begin push
      begin_order = h.forward

      pub before-Within : Within In code (compile_begin v) u1
      unfolding compile_begin compile_repeat comma push pop
      before-Within =
          Within-inner v (compile_repeat x u2) (compile_begin v) u1 w (≤ℤ-refl v.dp)
            (≤ℤ-trans u1.dp u2.dp _ (weaken u1.dp u2.dp (while_size x u1 u2 k)) (step_over u2.dp))
            (λ a p q. while_first x u1 u2 k a q)

      pub body-Within : Within In code (compile_while x u1) u2
      unfolding compile_while compile_if compile_repeat comma push pop
      body-Within =
          Within-inner v (compile_repeat x u2) (compile_while x u1) u2 w
            (≤ℤ-trans v.dp u1.dp _ begin_order (step_over u1.dp)) (step_over u2.dp)
            (λ a p q. while_second x u1 u2 k a p q)

      pub compile_while-TestsAt : TestsAt u1.dp (compile_while x u1).dp (compile_repeat x u2).dp
      unfolding compile_while compile_if compile_repeat comma push pop
      compile_while-TestsAt =
          test v (compile_repeat x u2) u1.dp _ _ w begin_order
            (room u1.dp _ (≤ℤ-trans _ u2.dp _ (while_size x u1 u2 k) (step_over u2.dp)))
            (while_opcode x u1 u2 k) (begin-while-repeat x v u1 u2 h k).1

      pub compile_repeat-JumpsTo : JumpsTo u2.dp (compile_begin v).dp
      unfolding compile_begin compile_repeat comma push pop
      compile_repeat-JumpsTo =
          jump_there v (compile_repeat x u2) u2.dp _ w
            (≤ℤ-trans v.dp u1.dp u2.dp begin_order (weaken u1.dp u2.dp (while_size x u1 u2 k)))
            (room u2.dp _ (≤ℤ-refl (inc (inc u2.dp)))) (repeat_opcode x u1 u2 k)
            (begin-while-repeat x v u1 u2 h k).2
