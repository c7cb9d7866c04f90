-- ===== src/Flow/Structure.antt =====
-- A compiled control structure branches to its own marks.
use post.Prelude.{
  ℤ, pos, ◌+ℤ◌, ◌-ℤ◌, ◌==ℤ◌, ◌≤ℤ◌, ◌<ℤ◌, Store, update, if◌then◌else◌, ◌≡◌, ◌≢◌, refl, arith, ap,
  ◌∙◌, sym, update_self, update_ne, inc-dec,
}
use mathlib.Core.Path.{ap₂}
use post.Vm.{Vm, push, pop, inc, dec}
use post.Flow.{forth_branch, forth_0branch}
use post.Flow.Compile.{
  Tokens, comma, compile_if, compile_else, compile_then, compile_begin, compile_until,
}

-- Compiling went from `u` to `u'` and resolved all that it marked: the data stack is as it was, and
-- so is the code up to where `u` stood.
pub record Balanced (u u' : Vm) : Type 0 where
  pub top : u'.tos ≡ u.tos
  pub depth : u'.sp ≡ u.sp
  pub items : (i : ℤ) → i ≤ℤ u.sp → u'.s i ≡ u.s i
  pub forward : u.dp ≤ℤ u'.dp
  pub code : (a : ℤ) → a <ℤ u.dp → u'.m a ≡ u.m a

-- Compiling a cell leaves no marks.
pub comma-Balanced : (n : ℤ) (u : Vm) → Balanced u (comma n u)
unfolding comma
comma-Balanced n u = record {
  top = refl;
  depth = refl;
  items = λ i p. refl;
  forward = ground arith;
  code = λ a p. update_ne u.m u.dp n a (ground arith);
}

pub there : (a b : ℤ) → a +ℤ (b -ℤ a) ≡ b
there a b = ground arith

-- What `(0branch)` does where the cell at `ip` leads to `target`.
pub branch_on_zero :
    (z : Vm) (target next : ℤ)
    → z.ip +ℤ z.m z.ip ≡ target
    → inc z.ip ≡ next
    → (forth_0branch z).ip ≡ (if z.tos ==ℤ pos 0 then target else next)
unfolding forth_0branch pop
branch_on_zero z target next p q = ground (arith, p, q)

-- The cell at `a` holds the distance from `a` to `b`.
pub leads :
    (z : Vm) (m : Store) (a b : ℤ) → z.m ≡ m → z.ip ≡ a → m a ≡ b -ℤ a → z.ip +ℤ z.m z.ip ≡ b
leads z m a b code at_cell distance =
    ap₂ ◌+ℤ◌ at_cell (ap (λ n. n z.ip) code ∙ ap m at_cell ∙ distance) ∙ there a b

module _ (x : Tokens) (v u : Vm) where
  if-then_Balanced : Balanced (compile_if x v) u → Balanced v (compile_then u)
  unfolding compile_if compile_then comma push pop
  if-then_Balanced h = record {
    top = ap u.s h.depth ∙ h.items (inc v.sp) (ground arith) ∙ update_self v.s (inc v.sp) v.tos;
    depth = ap dec h.depth ∙ ground arith;
    items = λ i below. h.items i (ground arith) ∙ update_ne v.s (inc v.sp) v.tos i (ground arith);
    forward = let f = h.forward in ground arith;
    code = λ a below.
        update_ne u.m u.tos (u.dp -ℤ u.tos) a (λ e. absurd (not_hole a below e))
        ∙ h.code a (ground arith)
        ∙ update_ne v.m v.dp x.x_0branch a (ground arith);
  }
    where
      not_hole : (a : ℤ) → a <ℤ v.dp → u.tos ≡ a → ⊥
      not_hole a below e = let q = sym e ∙ h.top in ground arith

  -- `IF ... THEN` around code that leaves no marks: the whole resolves its mark, and `(0branch)`
  -- goes to the code after `THEN` from a 0, and to the code after `IF` from any other value.
  pub if-then :
      Balanced (compile_if x v) u
      → Balanced v (compile_then u)
        × ((z : Vm)
            → z.m ≡ (compile_then u).m
            → z.ip ≡ inc v.dp
            → (forth_0branch z).ip
              ≡ (if z.tos ==ℤ pos 0 then (compile_then u).dp else inc (inc v.dp)))
  unfolding compile_if compile_then comma push pop forth_0branch
  if-then h = (
    if-then_Balanced h,
    λ z code at_hole.
        let distance : (compile_then u).m (inc v.dp) ≡ u.dp -ℤ inc v.dp =
          ap (λ a. update u.m a (u.dp -ℤ a) (inc v.dp)) h.top
          ∙ update_self u.m (inc v.dp) (u.dp -ℤ inc v.dp) in
        branch_on_zero z u.dp (inc (inc v.dp))
          (leads z (compile_then u).m (inc v.dp) u.dp code at_hole distance) (ap inc at_hole),
  )

  -- `BEGIN ... UNTIL` around code that leaves no marks: the whole resolves its mark, and
  -- `(0branch)` goes back to the code after `BEGIN` from a 0, and on from any other value.
  pub begin-until :
      Balanced (compile_begin v) u
      → Balanced v (compile_until x u)
        × ((z : Vm)
            → z.m ≡ (compile_until x u).m
            → z.ip ≡ inc u.dp
            → (forth_0branch z).ip ≡ (if z.tos ==ℤ pos 0 then v.dp else (compile_until x u).dp))
  unfolding compile_begin compile_until comma push pop forth_0branch
  begin-until h = (
    record {
      top = ap u.s h.depth ∙ h.items (inc v.sp) (ground arith) ∙ update_self v.s (inc v.sp) v.tos;
      depth = ap dec h.depth ∙ ground arith;
      items = λ i below. h.items i (ground arith) ∙ update_ne v.s (inc v.sp) v.tos i (ground arith);
      forward = let f = h.forward in ground arith;
      code = λ a below. let f = h.forward in let c = h.code a below in ground arith;
    },
    λ z code at_cell.
        let distance : (compile_until x u).m (inc u.dp) ≡ v.dp -ℤ inc u.dp =
          update_self (update u.m u.dp x.x_0branch) (inc u.dp) (u.tos -ℤ inc u.dp)
          ∙ ap (λ a. a -ℤ inc u.dp) h.top in
        branch_on_zero z v.dp (inc (inc u.dp))
          (leads z (compile_until x u).m (inc u.dp) v.dp code at_cell distance) (ap inc at_cell),
  )

then-ne : (u : Vm) (a : ℤ) → u.tos ≢ a → (compile_then u).m a ≡ u.m a
unfolding compile_then pop
then-ne u a p = update_ne u.m u.tos (u.dp -ℤ u.tos) a p

pub apart : (a b : ℤ) → a <ℤ b → b ≢ a
apart a b p e = absurd (ground arith)

-- `IF` and `ELSE` around code that took the dictionary from `compile_if x v` to `u1`.
module _ (x : Tokens) (v u1 : Vm) (h : Balanced (compile_if x v) u1) where
  if-else_top : (compile_else x u1).tos ≡ inc u1.dp
  unfolding compile_else comma pop
  if-else_top = ground arith

  if-else_depth : (compile_else x u1).sp ≡ inc v.sp
  unfolding compile_else compile_if comma push pop
  if-else_depth = let d = h.depth in ground arith

  if-else_items : (i : ℤ) → i ≤ℤ v.sp → (compile_else x u1).s i ≡ v.s i
  unfolding compile_else compile_if comma push pop
  if-else_items i below = let d = h.depth in let e = h.items i (ground arith) in ground arith

  if-else_saved : (compile_else x u1).s (inc v.sp) ≡ v.tos
  unfolding compile_else compile_if comma push pop
  if-else_saved = let d = h.depth in let e = h.items (inc v.sp) (ground arith) in ground arith

  if-else_code : (a : ℤ) → a <ℤ v.dp → (compile_else x u1).m a ≡ v.m a
  unfolding compile_else compile_if comma push pop
  if-else_code a below =
      let f = h.forward in let t = h.top in let c = h.code a (ground arith) in ground arith

  if-else_cell : (compile_else x u1).m (inc v.dp) ≡ inc (inc u1.dp) -ℤ inc v.dp
  unfolding compile_else compile_if comma push pop
  if-else_cell = let f = h.forward in let t = h.top in ground arith

  if-else_ahead : inc v.dp <ℤ inc u1.dp
  unfolding compile_if comma push
  if-else_ahead = let f = h.forward in ground arith

  if-else_inside : inc v.dp <ℤ (compile_else x u1).dp
  unfolding compile_if compile_else comma push pop
  if-else_inside = let f = h.forward in ground arith

  sooner : (a : ℤ) → a <ℤ v.dp → a <ℤ inc u1.dp
  sooner a p = let q = if-else_ahead in ground arith

  inside : (a : ℤ) → a <ℤ v.dp → a <ℤ (compile_else x u1).dp
  inside a p = let q = if-else_inside in ground arith

  at_top : inc v.sp ≤ℤ (compile_else x u1).sp
  at_top = let d = if-else_depth in ground arith

  deeper : (i : ℤ) → i ≤ℤ v.sp → i ≤ℤ (compile_else x u1).sp
  deeper i p = let d = if-else_depth in ground arith

  further : (u2 : Vm) → (compile_else x u1).dp ≤ℤ u2.dp → v.dp ≤ℤ u2.dp
  further u2 f = let q = if-else_inside in ground arith

  -- `IF ... ELSE ... THEN` around code that leaves no marks: the whole resolves its marks; from a
  -- 0, `(0branch)` goes to the code after `ELSE`, from any other value to the code after `IF`; and
  -- the `(branch)` before `ELSE`'s mark goes to the code after `THEN`.
  pub if-else-then :
      (u2 : Vm)
      → Balanced (compile_else x u1) u2
      → Balanced v (compile_then u2)
        × ((z : Vm)
            → z.m ≡ (compile_then u2).m
            → z.ip ≡ inc v.dp
            → (forth_0branch z).ip ≡ (if z.tos ==ℤ pos 0 then inc (inc u1.dp) else inc (inc v.dp)))
        × ((z : Vm)
            → z.m ≡ (compile_then u2).m
            → z.ip ≡ inc u1.dp
            → (forth_branch z).ip ≡ (compile_then u2).dp)
  unfolding compile_then pop forth_branch
  if-else-then u2 k =
      let ahead = if-else_ahead in
      let hole : u2.tos ≡ inc u1.dp = k.top ∙ if-else_top in
      let below_hole =
        λ (a : ℤ) (p : a <ℤ inc u1.dp). then-ne u2 a (λ e. apart a (inc u1.dp) p (sym hole ∙ e)) in
      (
        record {
          top = ap u2.s (k.depth ∙ if-else_depth) ∙ k.items (inc v.sp) (at_top) ∙ if-else_saved;
          depth = ap dec (k.depth ∙ if-else_depth) ∙ inc-dec v.sp;
          items = λ i p. k.items i (deeper i p) ∙ if-else_items i p;
          forward = further u2 k.forward;
          code = λ a p. below_hole a (sooner a p) ∙ k.code a (inside a p) ∙ if-else_code a p;
        },
        λ z code at_hole.
            branch_on_zero z (inc (inc u1.dp)) (inc (inc v.dp))
              (leads z (compile_then u2).m (inc v.dp) (inc (inc u1.dp)) code at_hole
                (below_hole (inc v.dp) ahead ∙ k.code (inc v.dp) if-else_inside ∙ if-else_cell))
              (ap inc at_hole),
        λ z code at_hole. leads z (compile_then u2).m (inc u1.dp) u2.dp code at_hole (
            ap (λ a. update u2.m a (u2.dp -ℤ a) (inc u1.dp)) hole
            ∙ update_self u2.m (inc u1.dp) (u2.dp -ℤ inc u1.dp)),
      )
