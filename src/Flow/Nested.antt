-- ===== src/Flow/Nested.antt =====
-- Compiled code without open marks stays so when it is put in sequence or in a loop.
use post.Prelude.{
  ℤ, pos, ◌+ℤ◌, ◌-ℤ◌, ◌≤ℤ◌, ◌<ℤ◌, Store, update, ◌≡◌, ◌≢◌, refl, arith, ap, ◌∙◌, sym, update_self,
  update_ne, inc-dec, Bool-cases, inl, inr, ◌==ℤ◌, ==ℤ_iff,
}
use post.Vm.{Vm, push, pop, inc, dec}
use post.Flow.Compile.{
  Tokens, comma, innerloop, compile_begin, compile_again, make_do, compile_loop, compile_leave,
}
use post.Flow.Structure.{Balanced, comma-Balanced}

pub Balanced-refl : (v : Vm) → Balanced v v
Balanced-refl v = record {
  top = refl;
  depth = refl;
  items = λ i p. refl;
  forward = ground arith;
  code = λ a p. refl;
}

pub Balanced-trans : (u v w : Vm) → Balanced u v → Balanced v w → Balanced u w
Balanced-trans u v w h k = record {
  top = k.top ∙ h.top;
  depth = k.depth ∙ h.depth;
  items = λ i p. k.items i (below i p) ∙ h.items i p;
  forward = let f = h.forward in let g = k.forward in ground arith;
  code = λ a p. k.code a (before a p) ∙ h.code a p;
}
  where
    below : (i : ℤ) → i ≤ℤ u.sp → i ≤ℤ v.sp
    below i p = let d = h.depth in ground arith

    before : (a : ℤ) → a <ℤ u.dp → a <ℤ v.dp
    before a p = let f = h.forward in ground arith

pub leave-Balanced : (x : Tokens) (v : Vm) → Balanced v (compile_leave x v)
unfolding compile_leave
leave-Balanced x v =
    let v1 = comma x.x_brleave v in
    Balanced-trans v v1 (compile_leave x v) (comma-Balanced x.x_brleave v)
      (comma-Balanced (v1.m innerloop) v1)

-- `BEGIN ... AGAIN` around code that leaves no marks.
pub begin-again_Balanced :
    (x : Tokens) (v u : Vm) → Balanced (compile_begin v) u → Balanced v (compile_again x u)
unfolding compile_begin compile_again comma push pop
begin-again_Balanced x v u h = record {
  top = ap u.s h.depth ∙ h.items (inc v.sp) (ground arith) ∙ update_self v.s (inc v.sp) v.tos;
  depth = ap dec h.depth ∙ ground arith;
  items = λ i below. h.items i (ground arith) ∙ update_ne v.s (inc v.sp) v.tos i (ground arith);
  forward = let f = h.forward in ground arith;
  code = λ a below. let f = h.forward in let c = h.code a below in ground arith;
}

-- `DO ... LOOP` around code that leaves no marks: it gives `innerloop` back too.
module _ (x : Tokens) (xt : ℤ) (v u : Vm) (above : innerloop <ℤ v.dp)
    (h : Balanced (make_do x xt v) u) where
  loop_depth : u.sp ≡ inc (inc v.sp)
  unfolding make_do comma
  loop_depth = h.depth

  loop_start : u.s (inc (inc v.sp)) ≡ inc v.dp
  unfolding make_do comma
  loop_start = h.items (inc (inc v.sp)) (ground arith) ∙ ground arith

  loop_saved : u.s (inc v.sp) ≡ v.m innerloop
  unfolding make_do comma
  loop_saved = h.items (inc v.sp) (ground arith) ∙ ground arith

  loop_items : (i : ℤ) → i ≤ℤ v.sp → u.s i ≡ v.s i
  unfolding make_do comma
  loop_items i p = h.items i (ground arith) ∙ ground arith

  pub loop_code : (a : ℤ) → a <ℤ v.dp → innerloop ≢ a → u.m a ≡ v.m a
  unfolding make_do comma
  loop_code a p e = h.code a (ground arith) ∙ ground arith

  pub loop_forward : inc (inc v.dp) ≤ℤ u.dp
  unfolding make_do comma
  loop_forward = h.forward

  -- The code that `LOOP` stores, before it restores `innerloop`.
  abbrev pub loop_cells : Store
  loop_cells =
      update (update (update u.m u.dp x.x_brloop) (inc u.dp) (inc v.dp +ℤ pos 2 -ℤ inc (inc u.dp)))
        (inc v.dp) (inc (inc u.dp) -ℤ inc v.dp)

  pub loop_memory : (compile_loop x u).m ≡ update loop_cells innerloop (v.m innerloop)
  unfolding compile_loop comma
  loop_memory =
      rw (compile_loop, loop_depth, loop_start)
        (ap (update loop_cells innerloop) (ap u.s (inc-dec (inc v.sp)) ∙ loop_saved))

  loop_below : (a : ℤ) → a <ℤ v.dp → loop_cells a ≡ u.m a
  loop_below a p = let f = loop_forward in ground arith

  loop_restored : (a : ℤ) → a <ℤ v.dp → update loop_cells innerloop (v.m innerloop) a ≡ v.m a
  loop_restored a p = elim (Bool-cases (innerloop ==ℤ a)) [
    | inl e ↦
        let same : innerloop ≡ a = (==ℤ_iff innerloop a).0 e in
        ap (update loop_cells innerloop (v.m innerloop)) (sym same)
        ∙ update_self loop_cells innerloop (v.m innerloop)
        ∙ ap v.m same
    | inr e ↦
        let other : innerloop ≢ a = λ q. absurd (ground (arith, (==ℤ_iff innerloop a).1 q)) in
        update_ne loop_cells innerloop (v.m innerloop) a other
        ∙ loop_below a p
        ∙ loop_code a p other
  ]

  pub do-loop_Balanced : Balanced v (compile_loop x u)
  unfolding make_do comma compile_loop
  do-loop_Balanced = record {
    top = h.top;
    depth = ap (λ i. dec (dec i)) loop_depth ∙ ap dec (inc-dec (inc v.sp)) ∙ inc-dec v.sp;
    items = loop_items;
    forward = let f = loop_forward in ground arith;
    code = λ a p. ap (λ (n : Store). n a) loop_memory ∙ loop_restored a p;
  }
