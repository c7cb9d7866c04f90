-- ===== src/Flow/Compile.antt =====
-- The functions of reference/jsforth.js that compile control structures: `IF` and so on. They keep the
-- addresses to resolve on the data stack.
use post.Prelude.{ℤ, pos, ◌+ℤ◌, ◌-ℤ◌, update}
use post.Vm.{Vm, push, pop, inc, dec}

-- The tokens that `primitive` returned for the run-time words, which the script keeps in variables.
pub record Tokens : Type 0 where
  pub x_branch : ℤ
  pub x_0branch : ℤ
  pub x_brdo : ℤ
  pub x_brqdo : ℤ
  pub x_brloop : ℤ
  pub x_brleave : ℤ
  pub x_brqleave : ℤ

-- The variable `innerloop` of the script: the address of its cell.
abbrev pub innerloop : ℤ
innerloop = pos 14

-- `m[dp++] = n`
unfoldable pub comma : ℤ → Vm → Vm
comma n v = record v { m = update v.m v.dp n; dp = inc v.dp }

-- `s[++sp] = a`, beneath `tos`
abbrev pub tuck_in : ℤ → Vm → Vm
tuck_in a v = record v { s = update v.s (inc v.sp) a; sp = inc v.sp }

-- `m[a] = n`
abbrev pub put : (a n : ℤ) → Vm → Vm
put a n v = record v { m = update v.m a n }

abbrev pub skip_cell : Vm → Vm
skip_cell v = record v { dp = inc v.dp }

unfoldable pub compile_then : Vm → Vm
unfolding pop
compile_then v = pop (put v.tos (v.dp -ℤ v.tos) v)

unfoldable pub compile_begin : Vm → Vm
unfolding push
compile_begin v = push v.dp v

module _ (x : Tokens) where
  unfoldable pub compile_if : Vm → Vm
  unfolding comma push
  compile_if v = let v1 = comma x.x_0branch v in skip_cell (push v1.dp v1)

  unfoldable pub compile_else : Vm → Vm
  unfolding comma pop
  compile_else v =
      let v1 = comma x.x_branch v in
      let v2 = skip_cell (tuck_in v1.dp v1) in pop (put v2.tos (v2.dp -ℤ v2.tos) v2)

  unfoldable pub compile_until : Vm → Vm
  unfolding comma pop
  compile_until v = let v1 = comma x.x_0branch v in pop (skip_cell (put v1.dp (v1.tos -ℤ v1.dp) v1))

  unfoldable pub compile_while : Vm → Vm
  unfolding compile_if
  compile_while v = compile_if v

  unfoldable pub compile_repeat : Vm → Vm
  unfolding comma pop
  compile_repeat v =
      let v1 = comma x.x_branch v in
      let v2 = skip_cell (put v1.dp (v1.s v1.sp -ℤ v1.dp) (record v1 { sp = dec v1.sp })) in
      pop (put v2.tos (v2.dp -ℤ v2.tos) v2)

  unfoldable pub compile_again : Vm → Vm
  unfolding comma pop
  compile_again v = let v1 = comma x.x_branch v in pop (skip_cell (put v1.dp (v1.tos -ℤ v1.dp) v1))

  unfoldable pub make_do : ℤ → Vm → Vm
  unfolding comma
  make_do xt v =
      let v1 = tuck_in (v.m innerloop) (comma xt v) in
      let v2 = put innerloop v1.dp v1 in skip_cell (tuck_in v2.dp v2)

  unfoldable pub compile_do : Vm → Vm
  unfolding make_do
  compile_do v = make_do x.x_brdo v

  unfoldable pub compile_qdo : Vm → Vm
  unfolding make_do
  compile_qdo v = make_do x.x_brqdo v

  unfoldable pub compile_loop : Vm → Vm
  unfolding comma
  compile_loop v =
      let v1 = comma x.x_brloop v in
      let after = inc v1.dp in
      let v2 = record (put v1.dp (v1.s v1.sp +ℤ pos 2 -ℤ after) v1) { dp = after } in
      let v3 = record (put (v2.s v2.sp) (v2.dp -ℤ v2.s v2.sp) v2) { sp = dec v2.sp } in
      record (put innerloop (v3.s v3.sp) v3) { sp = dec v3.sp }

  unfoldable pub compile_leave : Vm → Vm
  unfolding comma
  compile_leave v = let v1 = comma x.x_brleave v in comma (v1.m innerloop) v1

  unfoldable pub compile_qleave : Vm → Vm
  unfolding comma
  compile_qleave v = let v1 = comma x.x_brqleave v in comma (v1.m innerloop) v1
