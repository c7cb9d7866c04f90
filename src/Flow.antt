-- ===== src/Flow.antt =====
-- The run-time words that move the instruction pointer, and the words of the script that compile them,
-- of reference/jsforth.js. `ip` stands at the cell after the word's token.
mod Count
pub mod Structure
pub mod While
pub mod Nested
mod Tests
pub mod Compile
use post.Prelude.{ℤ, pos, ◌+ℤ◌, ◌-ℤ◌, ◌==ℤ◌, ltb_ℤ, update, if◌then◌else◌}
use post.Number.{js_add, js_sub, js_xor}
use post.Vm.{Vm, push, pop, rpush, inc, dec}

unfoldable pub forth_dolit : Vm → Vm
unfolding push
forth_dolit v = record (push (v.m v.ip) v) { ip = inc v.ip }

unfoldable pub forth_brsquote : Vm → Vm
unfolding push forth_dolit
forth_brsquote v =
    let v1 = forth_dolit v in
    record v1 { s = update v1.s (inc v1.sp) v1.ip; sp = inc v1.sp; ip = v1.ip +ℤ v1.tos }

pub forth_brcquote : Vm → Vm
unfolding push
forth_brcquote v = record (push v.ip v) { ip = inc v.ip +ℤ v.m v.ip }

pub forth_dovar : Vm → Vm
unfolding push
forth_dovar v = record (push (inc v.w) v) { w = inc v.w }

pub forth_doconst : Vm → Vm
unfolding push
forth_doconst v = record (push (v.m (inc v.w)) v) { w = inc v.w }

-- `ip += m[ip]`
abbrev pub jump : Vm → Vm
jump v = record v { ip = v.ip +ℤ v.m v.ip }

abbrev pub pass : Vm → Vm
pass v = record v { ip = inc v.ip }

unfoldable pub forth_branch : Vm → Vm
forth_branch v = jump v

unfoldable pub forth_0branch : Vm → Vm
unfolding pop
forth_0branch v = pop (if v.tos ==ℤ pos 0 then jump v else pass v)

pub forth_brto : Vm → Vm
unfolding pop
forth_brto v = pop (record v { m = update v.m (v.m v.ip) v.tos; ip = inc v.ip })

pub forth_brfor : Vm → Vm
unfolding pop rpush
forth_brfor v = pop (pass (rpush v.tos (rpush v.tos v)))

-- `ip++ ; rp -= 2`
abbrev pub leave_loop : Vm → Vm
leave_loop v = record v { ip = inc v.ip; rp = v.rp -ℤ pos 2 }

pub forth_brnext : Vm → Vm
forth_brnext v =
    let v1 = record v { r = update v.r v.rp (js_sub (v.r v.rp) (pos 1)) } in
    if v1.r v1.rp ==ℤ pos 0 then leave_loop v1 else jump v1

-- `r[++rp] = s[sp--] ; r[++rp] = tos ; ip++`
abbrev pub enter_loop : Vm → Vm
unfolding rpush
enter_loop v = let v1 = record (rpush (v.s v.sp) v) { sp = dec v.sp } in pass (rpush v1.tos v1)

unfoldable pub forth_brdo : Vm → Vm
unfolding pop rpush
forth_brdo v = pop (enter_loop v)

pub forth_brqdo : Vm → Vm
unfolding pop rpush
forth_brqdo v = pop (if v.tos ==ℤ v.s v.sp then jump (record v { sp = dec v.sp }) else enter_loop v)

-- `(leave)` of fig-Forth and Forth-79: the index becomes the limit less 1.
pub forth_brleave79 : Vm → Vm
forth_brleave79 v = record v { r = update v.r v.rp (js_sub (v.r (v.rp -ℤ pos 1)) (pos 1)) }

-- `rp -= 2 ; ip = m[ip] ; ip += m[ip]`
pub forth_brleave : Vm → Vm
forth_brleave v = jump (record v { rp = v.rp -ℤ pos 2; ip = v.m v.ip })

pub forth_brqleave : Vm → Vm
unfolding pop forth_brleave
forth_brqleave v = pop (if v.tos ==ℤ pos 0 then pass v else forth_brleave v)

unfoldable pub forth_brloop : Vm → Vm
forth_brloop v =
    let v1 = record v { r = update v.r v.rp (js_add (v.r v.rp) (pos 1)) } in
    if v1.r v1.rp ==ℤ v1.r (v1.rp -ℤ pos 1) then leave_loop v1 else jump v1

pub forth_brplusloop : Vm → Vm
unfolding pop
forth_brplusloop v =
    let w = js_sub (v.r v.rp) (v.r (v.rp -ℤ pos 1)) in
    let v1 = pop (record v { w = w; r = update v.r v.rp (js_add (v.r v.rp) v.tos) }) in
    let distance = js_sub (v1.r v1.rp) (v1.r (v1.rp -ℤ pos 1)) in
    if ltb_ℤ (pos 0) (js_xor distance w) then jump v1 else leave_loop v1

pub forth_brunloop : Vm → Vm
forth_brunloop v = record v { rp = v.rp -ℤ pos 2 }

pub forth_brof : Vm → Vm
unfolding pop
forth_brof v =
    let v1 = pop (record v { w = v.tos }) in if v1.w ==ℤ v1.tos then pass (pop v1) else jump v1

pub forth_i : Vm → Vm
unfolding push
forth_i v = push (v.r v.rp) v

pub forth_j : Vm → Vm
unfolding push
forth_j v = push (v.r (v.rp -ℤ pos 2)) v
