-- ===== src/Inner/Cells.antt =====
-- The cells of compiled structures: their tokens, and the code between.
use post.Prelude.{ℤ, ◌≤ℤ◌, ◌<ℤ◌, ◌≡◌, ◌≢◌, refl, arith, ◌∙◌, sym, update, update_ne, update_self}
use post.Vm.{Vm, push, pop, inc}
use post.Flow.Compile.{
  Tokens, comma, compile_if, compile_else, compile_then, compile_until, compile_while,
  compile_repeat,
}
use post.Flow.Structure.{Balanced}

pub then_cell : (u : Vm) (a : ℤ) → u.tos ≢ a → (compile_then u).m a ≡ u.m a
unfolding compile_then pop
then_cell u a p = update_ne u.m u.tos _ a p

-- `IF` around code from `compile_if x v` to `u1`.
module _ (x : Tokens) (v u1 : Vm) (h : Balanced (compile_if x v) u1) where
  if_hole : u1.tos ≡ inc v.dp
  unfolding compile_if comma push
  if_hole = h.top

  if_away : (a : ℤ) → a ≢ inc v.dp → u1.tos ≢ a
  if_away a p e = p (sym e ∙ if_hole)

  if_code : u1.m v.dp ≡ x.x_0branch
  unfolding compile_if comma push
  if_code = let c = h.code v.dp (ground arith) in ground arith

  pub if_size : inc (inc v.dp) ≤ℤ u1.dp
  unfolding compile_if comma push
  if_size = h.forward

  pub if_opcode : (compile_then u1).m v.dp ≡ x.x_0branch
  if_opcode = then_cell u1 v.dp (if_away v.dp (λ e. absurd (ground arith))) ∙ if_code

  pub if_body : (a : ℤ) → inc (inc v.dp) ≤ℤ a → (compile_then u1).m a ≡ u1.m a
  if_body a p = then_cell u1 a (if_away a (λ e. absurd (ground arith)))

  else_code : (a : ℤ) → a <ℤ u1.dp → a ≢ inc v.dp → (compile_else x u1).m a ≡ u1.m a
  unfolding compile_else comma pop
  else_code a p q =
      update_ne (update u1.m u1.dp x.x_branch) u1.tos _ a (if_away a q)
      ∙ update_ne u1.m u1.dp x.x_branch a (λ e. absurd (ground arith))

  else_mark : (compile_else x u1).m u1.dp ≡ x.x_branch
  unfolding compile_else comma pop
  else_mark =
      let s = if_size in
      update_ne (update u1.m u1.dp x.x_branch) u1.tos _ u1.dp
        (if_away u1.dp (λ e. absurd (ground arith)))
      ∙ update_self u1.m u1.dp x.x_branch

  pub else_size : (compile_else x u1).dp ≡ inc (inc u1.dp)
  unfolding compile_else comma pop
  else_size = refl

  -- `ELSE` around code that ends at `u2`.
  module _ (u2 : Vm) (k : Balanced (compile_else x u1) u2) where
    else_away : (a : ℤ) → a ≢ inc u1.dp → u2.tos ≢ a
    unfolding compile_else comma pop
    else_away a p e = p (sym e ∙ k.top ∙ ground arith)

    else_inner : (a : ℤ) → a <ℤ u1.dp → a ≢ inc v.dp → (compile_then u2).m a ≡ u1.m a
    else_inner a p q =
        let size = else_size in
        then_cell u2 a (else_away a (λ e. absurd (ground arith)))
        ∙ k.code a (ground arith)
        ∙ else_code a p q

    pub else_opcode : (compile_then u2).m v.dp ≡ x.x_0branch
    else_opcode =
        let s = if_size in else_inner v.dp (ground arith) (λ e. absurd (ground arith)) ∙ if_code

    pub else_first : (a : ℤ) → inc (inc v.dp) ≤ℤ a → a <ℤ u1.dp → (compile_then u2).m a ≡ u1.m a
    else_first a p q = else_inner a q (λ e. absurd (ground arith))

    pub else_branch : (compile_then u2).m u1.dp ≡ x.x_branch
    else_branch =
        let size = else_size in
        then_cell u2 u1.dp (else_away u1.dp (λ e. absurd (ground arith)))
        ∙ k.code u1.dp (ground arith)
        ∙ else_mark

    pub else_second : (a : ℤ) → inc (inc u1.dp) ≤ℤ a → (compile_then u2).m a ≡ u2.m a
    else_second a p = then_cell u2 a (else_away a (λ e. absurd (ground arith)))

module _ (x : Tokens) (u : Vm) where
  pub until_opcode : (compile_until x u).m u.dp ≡ x.x_0branch
  unfolding compile_until comma pop
  until_opcode = ground arith

  pub until_body : (a : ℤ) → a <ℤ u.dp → (compile_until x u).m a ≡ u.m a
  unfolding compile_until comma pop
  until_body a p = ground arith

-- `BEGIN` and `WHILE` around code from `compile_while x u1` to `u2`.
module _ (x : Tokens) (u1 u2 : Vm) (k : Balanced (compile_while x u1) u2) where
  while_hole : u2.tos ≡ inc u1.dp
  unfolding compile_while compile_if comma push
  while_hole = k.top

  pub while_size : inc (inc u1.dp) ≤ℤ u2.dp
  unfolding compile_while compile_if comma push
  while_size = k.forward

  repeat_cell : (a : ℤ) → a <ℤ u2.dp → a ≢ inc u1.dp → (compile_repeat x u2).m a ≡ u2.m a
  unfolding compile_repeat comma pop
  repeat_cell a p q = let hole = while_hole in ground arith

  while_cell : (a : ℤ) → a <ℤ u1.dp → u2.m a ≡ u1.m a
  unfolding compile_while compile_if comma push
  while_cell a p = let c = k.code a (ground arith) in ground arith

  while_code : u2.m u1.dp ≡ x.x_0branch
  unfolding compile_while compile_if comma push
  while_code = let c = k.code u1.dp (ground arith) in ground arith

  pub while_opcode : (compile_repeat x u2).m u1.dp ≡ x.x_0branch
  while_opcode =
      let s = while_size in
      repeat_cell u1.dp (ground arith) (λ e. absurd (ground arith)) ∙ while_code

  pub while_first : (a : ℤ) → a <ℤ u1.dp → (compile_repeat x u2).m a ≡ u1.m a
  while_first a p =
      let s = while_size in
      repeat_cell a (ground arith) (λ e. absurd (ground arith)) ∙ while_cell a p

  pub while_second :
      (a : ℤ) → inc (inc u1.dp) ≤ℤ a → a <ℤ u2.dp → (compile_repeat x u2).m a ≡ u2.m a
  while_second a p q = repeat_cell a q (λ e. absurd (ground arith))

  pub repeat_opcode : (compile_repeat x u2).m u2.dp ≡ x.x_branch
  unfolding compile_repeat comma pop
  repeat_opcode = let hole = while_hole in let s = while_size in ground arith
