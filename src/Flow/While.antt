-- ===== src/Flow/While.antt =====
-- `BEGIN ... WHILE ... REPEAT`, as compiled by the script.
use post.Prelude.{
  ℤ, pos, ◌-ℤ◌, ◌==ℤ◌, ◌≤ℤ◌, ◌<ℤ◌, Store, update, if◌then◌else◌, ◌≡◌, ◌≢◌, refl, arith, ap, ◌∙◌,
  inc-dec, update_self,
}
use post.Vm.{Vm, push, pop, inc, dec}
use post.Flow.{forth_branch, forth_0branch}
use post.Flow.Compile.{Tokens, comma, compile_if, compile_begin, compile_while, compile_repeat}
use post.Flow.Structure.{Balanced, branch_on_zero, leads}

module _ (x : Tokens) (v u1 u2 : Vm) (h : Balanced (compile_begin v) u1)
    (k : Balanced (compile_while x u1) u2) where
  hole : u2.tos ≡ inc u1.dp
  unfolding compile_while compile_if comma push
  hole = k.top

  start : u1.tos ≡ v.dp
  unfolding compile_begin push
  start = h.top

  depth_inside : u2.sp ≡ inc (inc v.sp)
  unfolding compile_while compile_if compile_begin comma push
  depth_inside = let d = h.depth in let e = k.depth in ground arith

  start_inside : u2.s u2.sp ≡ v.dp
  unfolding compile_while compile_if compile_begin comma push
  start_inside =
      let d = k.depth in let e = k.items (inc u1.sp) (ground arith) in let t = h.top in ground arith

  items_inside : (i : ℤ) → i ≤ℤ v.sp → u2.s i ≡ v.s i
  unfolding compile_while compile_if compile_begin comma push
  items_inside i p =
      let d = h.depth in
      let e = h.items i (ground arith) in let f = k.items i (ground arith) in ground arith

  saved_inside : u2.s (inc v.sp) ≡ v.tos
  unfolding compile_while compile_if compile_begin comma push
  saved_inside =
      let d = h.depth in
      let e = h.items (inc v.sp) (ground arith) in
      let f = k.items (inc v.sp) (ground arith) in ground arith

  code_inside : (a : ℤ) → a <ℤ v.dp → u2.m a ≡ v.m a
  unfolding compile_while compile_if compile_begin comma push
  code_inside a p =
      let g = h.forward in let e = h.code a p in let f = k.code a (ground arith) in ground arith

  order_first : v.dp ≤ℤ u1.dp
  unfolding compile_begin push
  order_first = h.forward

  order_second : inc (inc u1.dp) ≤ℤ u2.dp
  unfolding compile_while compile_if comma push
  order_second = k.forward

  repeat_cells :
      (m : Store) (a : ℤ)
      → m ≡ (compile_repeat x u2).m
      → a ≢ inc u1.dp
      → m a ≡ update (update u2.m u2.dp x.x_branch) (inc u2.dp) (v.dp -ℤ inc u2.dp) a
  unfolding compile_repeat comma pop
  repeat_cells m a e p = let q = hole in let s = start_inside in ap (λ n. n a) e ∙ ground arith

  ends_apart : inc u2.dp ≢ inc u1.dp
  ends_apart = let o = order_second in λ e. absurd (ground arith)

  whole : v.dp ≤ℤ inc (inc u2.dp)
  whole = let o = order_first in let o' = order_second in ground arith

  -- `BEGIN ... WHILE ... REPEAT` around code that leaves no marks: the whole resolves its marks;
  -- from a 0, `(0branch)` goes to the code after `REPEAT`, from any other value to the code after
  -- `WHILE`; and the `(branch)` at the end goes back to the code after `BEGIN`.
  pub begin-while-repeat :
      Balanced v (compile_repeat x u2)
      × ((z : Vm)
          → z.m ≡ (compile_repeat x u2).m
          → z.ip ≡ inc u1.dp
          → (forth_0branch z).ip
            ≡ (if z.tos ==ℤ pos 0 then (compile_repeat x u2).dp else inc (inc u1.dp)))
      × ((z : Vm) → z.m ≡ (compile_repeat x u2).m → z.ip ≡ inc u2.dp → (forth_branch z).ip ≡ v.dp)
  unfolding compile_repeat comma pop forth_branch
  begin-while-repeat =
      let o1 = order_first in
      let o2 = order_second in
      let d = depth_inside in
      let q = hole in
      (
        record {
          top = ap (λ i. u2.s (dec i)) d ∙ ap u2.s (inc-dec (inc v.sp)) ∙ saved_inside;
          depth = ap (λ i. dec (dec i)) d ∙ ap dec (inc-dec (inc v.sp)) ∙ inc-dec v.sp;
          items = items_inside;
          forward = whole;
          code = λ a p.
              repeat_cells (compile_repeat x u2).m a refl (ground arith)
              ∙ ground (arith, code_inside a p);
        },
        λ z code at_hole.
            branch_on_zero z (inc (inc u2.dp)) (inc (inc u1.dp))
              (leads z (compile_repeat x u2).m (inc u1.dp) (inc (inc u2.dp)) code at_hole
                (ground arith))
              (ap inc at_hole),
        λ z code at_end. leads z (compile_repeat x u2).m (inc u2.dp) v.dp code at_end (
            repeat_cells (compile_repeat x u2).m (inc u2.dp) refl ends_apart
            ∙ update_self (update u2.m u2.dp x.x_branch) (inc u2.dp) (v.dp -ℤ inc u2.dp)),
      )
