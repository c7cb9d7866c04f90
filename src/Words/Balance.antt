-- ===== src/Words/Balance.antt =====
-- What compiling the words leaves on the data stack and in the code.
use post.Prelude.{
  ℤ, ◌<ℤ◌, Bool, true, ◌&&◌, List, [], ◌∷◌, ◌≡◌, refl, arith, ap, sym, ℕ, zero, suc, get_elem?,
  some, Bool-cases, false, leb_ℤ, if◌then◌else◌, inl, inr, ◌∙◌,
}
use mathlib.Core.Path.{subst}
use post.Vm.{Vm, push, pop, inc}
use post.Pictured.{comma_checked, dictionaryfull}
use post.Flow.Compile.{
  Tokens, comma, innerloop, compile_if, compile_else, compile_then, compile_begin, compile_until,
  compile_while, compile_repeat, compile_again, compile_do, compile_qdo, compile_loop,
  compile_leave, make_do,
}
use post.Flow.Structure.{Balanced, comma-Balanced, if-then, if-else-then, begin-until}
use post.Flow.While.{begin-while-repeat}
use post.Flow.Nested.{
  Balanced-refl, Balanced-trans, leave-Balanced, begin-again_Balanced, do-loop_Balanced,
}
use post.Words.{
  Token, Cell, Item, Colon, cell_value, compile_cells, compile_item, compile_items, compile_colon,
  x_nest, x_unnest,
}
use post.Words.Catalog.{words}
use post.Words.Structured.{
  Structured, nothing, cells, leaving, if_then, if_else_then, begin_until, begin_again,
  begin_while_repeat, do_loop, qdo_loop, closed, closed-Structured,
}

-- The code is compiled above the cell of `innerloop`.
abbrev pub Above : Vm → Type 0
Above v = innerloop <ℤ v.dp

pub Above-next : (v u : Vm) → Balanced v u → Above v → Above u
Above-next v u h a = let f = h.forward in ground arith

module _ (xt : Token → ℤ) (x : Tokens) where
  pub cells-Balanced : (cs : List Cell) (v : Vm) → Balanced v (compile_cells xt x cs v)
  unfolding compile_cells
  cells-Balanced [] v = Balanced-refl v
  cells-Balanced (c ∷ cs) v =
      let v1 = comma (cell_value xt x c) v in
      Balanced-trans v v1 (compile_cells xt x cs v1) (comma-Balanced (cell_value xt x c) v)
        (cells-Balanced cs v1)

  pub Above-if : (v : Vm) → Above v → Above (compile_if x v)
  unfolding compile_if comma push
  Above-if v a = ground arith

  pub Above-while : (v : Vm) → Above v → Above (compile_while x v)
  unfolding compile_while compile_if comma push
  Above-while v a = ground arith

  pub Above-else : (v : Vm) → Above v → Above (compile_else x v)
  unfolding compile_else comma pop
  Above-else v a = ground arith

  pub Above-begin : (v : Vm) → Above v → Above (compile_begin v)
  unfolding compile_begin push
  Above-begin v a = ground arith

  pub Above-do : (v : Vm) (t : ℤ) → Above v → Above (make_do x t v)
  unfolding make_do comma
  Above-do v t a = ground arith

  -- Where compiling closed structures from `v` arrives.
  unfoldable pub reached : {is rest : List Item} → Structured is rest → Vm → Vm
  reached nothing v = v
  reached (cells cs d) v = reached d (compile_cells xt x cs v)
  reached (leaving d) v = reached d (compile_leave x v)
  reached (if_then d e) v = reached e (compile_then (reached d (compile_if x v)))
  reached (if_else_then d f e) v =
      reached e (compile_then (reached f (compile_else x (reached d (compile_if x v)))))
  reached (begin_until d e) v = reached e (compile_until x (reached d (compile_begin v)))
  reached (begin_again d e) v = reached e (compile_again x (reached d (compile_begin v)))
  reached (begin_while_repeat d f e) v =
      reached e (compile_repeat x (reached f (compile_while x (reached d (compile_begin v)))))
  reached (do_loop d e) v = reached e (compile_loop x (reached d (compile_do x v)))
  reached (qdo_loop d e) v = reached e (compile_loop x (reached d (compile_qdo x v)))

  -- The calls of closed structures do what the structures do, one after the other.
  pub compile_items-reached :
      {is rest : List Item} (d : Structured is rest) (v : Vm)
      → compile_items xt x is v ≡ compile_items xt x rest (reached d v)
  unfolding compile_items compile_item reached
  compile_items-reached nothing v = refl
  compile_items-reached (cells cs d) v = compile_items-reached d (compile_cells xt x cs v)
  compile_items-reached (leaving d) v = compile_items-reached d (compile_leave x v)
  compile_items-reached (if_then d e) v =
      compile_items-reached d (compile_if x v) ∙ compile_items-reached e _
  compile_items-reached (if_else_then d f e) v =
      compile_items-reached d (compile_if x v)
      ∙ compile_items-reached f _
      ∙ compile_items-reached e _
  compile_items-reached (begin_until d e) v =
      compile_items-reached d (compile_begin v) ∙ compile_items-reached e _
  compile_items-reached (begin_again d e) v =
      compile_items-reached d (compile_begin v) ∙ compile_items-reached e _
  compile_items-reached (begin_while_repeat d f e) v =
      compile_items-reached d (compile_begin v)
      ∙ compile_items-reached f _
      ∙ compile_items-reached e _
  compile_items-reached (do_loop d e) v =
      compile_items-reached d (compile_do x v) ∙ compile_items-reached e _
  compile_items-reached (qdo_loop d e) v =
      compile_items-reached d (compile_qdo x v) ∙ compile_items-reached e _

  -- More structures, behind code that is closed.
  behind :
      {is rest : List Item} (d : Structured is rest) (v u : Vm)
      → ((z : Vm) → Above z → Balanced z (reached d z))
      → Above v
      → Balanced v u
      → Balanced v (reached d u)
  behind d v u f a b = Balanced-trans v u (reached d u) b (f u (Above-next v u b a))

  pub reached-Balanced :
      {is rest : List Item} (d : Structured is rest) (v : Vm) → Above v → Balanced v (reached d v)
  unfolding reached compile_while compile_do compile_qdo
  reached-Balanced nothing v a = Balanced-refl v
  reached-Balanced (cells cs d) v a = behind d v _ (reached-Balanced d) a (cells-Balanced cs v)
  reached-Balanced (leaving d) v a = behind d v _ (reached-Balanced d) a (leave-Balanced x v)
  reached-Balanced (if_then d e) v a =
      let h = reached-Balanced d (compile_if x v) (Above-if v a) in
      behind e v _ (reached-Balanced e) a (if-then x v _ h).0
  reached-Balanced (if_else_then d f e) v a =
      let h = reached-Balanced d (compile_if x v) (Above-if v a) in
      let u1 = reached d (compile_if x v) in
      let a1 = Above-next _ u1 h (Above-if v a) in
      let k = reached-Balanced f (compile_else x u1) (Above-else u1 a1) in
      behind e v _ (reached-Balanced e) a (if-else-then x v u1 h _ k).0
  reached-Balanced (begin_until d e) v a =
      let h = reached-Balanced d (compile_begin v) (Above-begin v a) in
      behind e v _ (reached-Balanced e) a (begin-until x v _ h).0
  reached-Balanced (begin_again d e) v a =
      let h = reached-Balanced d (compile_begin v) (Above-begin v a) in
      behind e v _ (reached-Balanced e) a (begin-again_Balanced x v _ h)
  reached-Balanced (begin_while_repeat d f e) v a =
      let h = reached-Balanced d (compile_begin v) (Above-begin v a) in
      let u1 = reached d (compile_begin v) in
      let a1 = Above-next _ u1 h (Above-begin v a) in
      let k = reached-Balanced f (compile_while x u1) (Above-while u1 a1) in
      behind e v _ (reached-Balanced e) a (begin-while-repeat x v u1 _ h k).0
  reached-Balanced (do_loop d e) v a =
      let h = reached-Balanced d (compile_do x v) (Above-do v x.x_brdo a) in
      behind e v _ (reached-Balanced e) a (do-loop_Balanced x x.x_brdo v _ a h)
  reached-Balanced (qdo_loop d e) v a =
      let h = reached-Balanced d (compile_qdo x v) (Above-do v x.x_brqdo a) in
      behind e v _ (reached-Balanced e) a (do-loop_Balanced x x.x_brqdo v _ a h)

all_closed : List Colon → Bool
all_closed [] = true
all_closed (w ∷ ws) = closed w.items && all_closed ws

words-closed : all_closed words ≡ true
unfolding closed all_closed
words-closed = refl

and_left : (a b : Bool) → (a && b) ≡ true → a ≡ true
and_left a b h = ground arith

and_right : (a b : Bool) → (a && b) ≡ true → b ≡ true
and_right a b h = ground arith

some_injective : {y w : Colon} → some y ≡ some w → y ≡ w
some_injective e = cc

closed_at :
    (ws : List Colon) (n : ℕ) (w : Colon)
    → all_closed ws ≡ true
    → get_elem? ws n ≡ some w
    → closed w.items ≡ true
unfolding all_closed
closed_at [] n w h e = absurd (cc)
closed_at (y ∷ ws) zero w h e =
    let same : y ≡ w = some_injective e in
    ap (λ (z : Colon). closed z.items) (sym same) ∙ and_left (closed y.items) (all_closed ws) h
closed_at (y ∷ ws) (suc n) w h e = closed_at ws n w (and_right (closed y.items) (all_closed ws) h) e

-- Where there is room, the check of `comma` passes.
pub compile_colon-entry :
    (xt : Token → ℤ) (x : Tokens) (w : Colon) (v : Vm)
    → inc v.dp <ℤ dictionaryfull
    → compile_colon xt x w v ≡ (
        let ended = compile_items xt x w.items (comma (xt x_nest) v) in
        if w.returns then comma (xt x_unnest) ended else ended)
unfolding compile_colon comma_checked comma
compile_colon-entry xt x w v room =
    let e : leb_ℤ dictionaryfull (inc v.dp) ≡ false = ground arith in rw e refl

-- Compiling any of the words that the script defines in Forth, above the cell of `innerloop` and where the
-- dictionary has room for the word's first cell, the only one that the script checks, resolves
-- all marks of its control structures: the data stack, the variable `innerloop` and the code below are as
-- they were.
pub words-Balanced :
    (xt : Token → ℤ) (x : Tokens) (n : ℕ) (w : Colon) (v : Vm)
    → get_elem? words n ≡ some w
    → innerloop <ℤ v.dp
    → inc v.dp <ℤ dictionaryfull
    → Balanced v (compile_colon xt x w v)
unfolding compile_items
words-Balanced xt x n w v e a room =
    let v0 = comma (xt x_nest) v in
    let begun = comma-Balanced (xt x_nest) v in
    let d = closed-Structured w.items (closed_at words n w words-closed e) in
    let u = reached xt x d v0 in
    let p = compile_items-reached xt x d v0 in
    let h = reached-Balanced xt x d v0 (Above-next v v0 begun a) in
    let b : Balanced v (compile_items xt x w.items v0) =
      subst (Balanced v) (sym p) (Balanced-trans v v0 u begun h) in
    let ended = compile_items xt x w.items v0 in
    let entered = compile_colon-entry xt x w v room in
    elim (Bool-cases w.returns) [
      | inl r ↦
          rw (entered, r)
            (Balanced-trans v ended (comma (xt x_unnest) ended) b
              (comma-Balanced (xt x_unnest) ended))
      | inr r ↦ rw (entered, r) b
    ]
