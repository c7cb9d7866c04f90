-- ===== src/Throw.antt =====
-- `catch`, `throw` and the inner interpreter's words that they build on, of reference/jsforth.js.
-- `t` is the array of word types: `t i v` is what `t[i]()` does to the machine.
mod Frames
mod Tests
use post.Prelude.{ℤ, pos, ◌==ℤ◌, update, List, ◌∷◌, if◌then◌else◌}
use post.Vm.{Vm, reported, push, pop, rpush, inc, dec}

unfoldable pub forth_nest : Vm → Vm
unfolding rpush
forth_nest v = record (rpush v.ip v) { w = inc v.w; ip = inc v.w }

unfoldable pub forth_unnest : Vm → Vm
forth_unnest v = record v { ip = v.r v.rp; rp = dec v.rp }

pub forth_execute : (t : ℤ → Vm → Vm) → Vm → Vm
unfolding pop
forth_execute t v = t v.tos (record (pop v) { w = v.tos })

pub forth_perform : (t : ℤ → Vm → Vm) → Vm → Vm
unfolding pop
forth_perform t v = t (v.m v.tos) (record (pop v) { w = v.m v.tos })

-- The handler of a throw that nothing catches. It reports the code, stops the machine and has it
-- start again at `warm`.
unfoldable pub exception : ℤ → Vm → Vm
unfolding pop
exception x v = pop (record v { events = reported x ∷ v.events; suspended = v.warm })

pub forth_throw0 : Vm → Vm
forth_throw0 v =
    let rp1 = dec v.rp in
    let rp2 = dec rp1 in
    record v { catchframe = v.r v.rp; sp = v.r rp1; ip = v.r rp2; rp = dec rp2; tos = pos 0 }

-- The frame that `catch` builds, with the address of `throw0` above it.
abbrev pub frame : Vm → Vm
frame v =
    let v1 = rpush v.catchframe (rpush v.sp (rpush v.ip v)) in
    rpush v.brthrow0 (record v1 { catchframe = v1.rp })

pub forth_catch : (t : ℤ → Vm → Vm) → Vm → Vm
unfolding rpush forth_execute
forth_catch t v = forth_execute t (frame v)

unfoldable pub throwerror : ℤ → Vm → Vm
unfolding exception
throwerror x v =
    let rp0 = v.catchframe in
    let rp1 = dec rp0 in
    let rp2 = dec rp1 in
    if v.catchframe ==ℤ pos 0
    then exception x v
    else record v { tos = x; catchframe = v.r rp0; sp = v.r rp1; ip = v.r rp2; rp = dec rp2 }

pub forth_throw : Vm → Vm
unfolding throwerror pop
forth_throw v = if v.tos ==ℤ pos 0 then pop v else throwerror v.tos v
