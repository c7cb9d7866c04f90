-- ===== src/Stack.antt =====
-- The stack operators of reference/jsforth.js. A function that changes the machine returns the new
-- machine; each array write is written out in the order of the source.
pub mod View
mod Comment
mod Effects
mod Roll
mod Transfer
mod Tests
use post.Prelude.{
  ℤ, pos, negsuc, ◌+ℤ◌, ◌-ℤ◌, Store, update, ℕ, zero, suc, Option, none, some, ltb_ℤ, ◌==ℤ◌,
  if◌then◌else◌,
}
use post.Vm.{Vm, push, pop, rpush, inc, dec}

unfoldable pub forth_dup : Vm → Vm
unfolding push
forth_dup v = push v.tos v

pub forth_qdup : Vm → Vm
unfolding push
forth_qdup v = if v.tos ==ℤ pos 0 then v else push v.tos v

pub forth_drop : Vm → Vm
unfolding pop
forth_drop v = pop v

pub forth_swap : Vm → Vm
forth_swap v = let w = v.s v.sp in record v { w = w; s = update v.s v.sp v.tos; tos = w }

pub forth_over : Vm → Vm
forth_over v =
    let sp = inc v.sp in
    let s = update v.s sp v.tos in record v { s = s; sp = sp; tos = s (sp -ℤ pos 1) }

pub forth_rot : Vm → Vm
forth_rot v =
    let w = v.s v.sp in
    let s = update v.s v.sp v.tos in
    let tos = s (v.sp -ℤ pos 1) in record v { w = w; s = update s (v.sp -ℤ pos 1) w; tos = tos }

pub forth_minrot : Vm → Vm
forth_minrot v =
    let w = v.s (v.sp -ℤ pos 1) in
    let s = update v.s (v.sp -ℤ pos 1) v.tos in
    let tos = s v.sp in record v { w = w; s = update s v.sp w; tos = tos }

pub forth_tuck : Vm → Vm
forth_tuck v =
    let w = v.s v.sp in
    let s = update v.s v.sp v.tos in record v { w = w; s = update s (inc v.sp) w; sp = inc v.sp }

pub forth_nip : Vm → Vm
forth_nip v = record v { sp = dec v.sp }

pub forth_2dup : Vm → Vm
forth_2dup v =
    let sp = inc v.sp in
    let s = update v.s sp v.tos in
    let sp' = inc sp in record v { s = update s sp' (s (sp' -ℤ pos 2)); sp = sp' }

pub forth_2drop : Vm → Vm
forth_2drop v = let sp = dec v.sp in record v { tos = v.s sp; sp = dec sp }

pub forth_2swap : Vm → Vm
forth_2swap v =
    let w = v.s (v.sp -ℤ pos 1) in
    let s = update v.s (v.sp -ℤ pos 1) v.tos in
    let tos = w in
    let w' = s (v.sp -ℤ pos 2) in
    let s' = update s (v.sp -ℤ pos 2) (s v.sp) in
    record v { w = w'; s = update s' v.sp w'; tos = tos }

pub forth_2over : Vm → Vm
forth_2over v =
    let sp = inc v.sp in
    let s = update v.s sp v.tos in
    let tos = s (sp -ℤ pos 3) in
    let sp' = inc sp in
    let s' = update s sp' tos in record v { s = s'; sp = sp'; tos = s' (sp' -ℤ pos 3) }

pub forth_min : Vm → Vm
forth_min v =
    let x = v.s v.sp in record v { tos = if ltb_ℤ x v.tos then x else v.tos; sp = dec v.sp }

pub forth_max : Vm → Vm
forth_max v =
    let x = v.s v.sp in record v { tos = if ltb_ℤ v.tos x then x else v.tos; sp = dec v.sp }

pub forth_tor : Vm → Vm
unfolding pop rpush
forth_tor v = pop (rpush v.tos v)

pub forth_rfrom : Vm → Vm
unfolding push
forth_rfrom v = record (push (v.r v.rp) v) { rp = dec v.rp }

pub forth_rfetch : Vm → Vm
unfolding push
forth_rfetch v = push (v.r v.rp) v

pub forth_rdrop : Vm → Vm
forth_rdrop v = record v { rp = dec v.rp }

pub forth_2tor : Vm → Vm
unfolding pop rpush
forth_2tor v = let v1 = record (rpush (v.s v.sp) v) { sp = dec v.sp } in pop (rpush v1.tos v1)

pub forth_2rfrom : Vm → Vm
forth_2rfrom v =
    let sp = inc v.sp in
    let s = update v.s sp v.tos in
    let tos = v.r v.rp in
    let rp = dec v.rp in
    record v { s = update s (inc sp) (v.r rp); sp = inc sp; tos = tos; rp = dec rp }

pub forth_2rfetch : Vm → Vm
forth_2rfetch v =
    let sp = inc v.sp in
    let s = update v.s sp v.tos in
    record v { s = update s (inc sp) (v.r (v.rp -ℤ pos 1)); sp = inc sp; tos = v.r v.rp }

pub forth_depth : Vm → Vm
forth_depth v =
    let sp = inc v.sp in record v { s = update v.s sp v.tos; sp = sp; tos = sp -ℤ pos 1 }

pub forth_pick : Vm → Vm
forth_pick v = record v { tos = v.s (v.sp -ℤ v.tos) }

-- `for ( ; tos ; --tos ) s[sp-tos] = s[sp-tos+1]`, with `k` rounds left
roll_loop : ℕ → ℤ → Store → Store
roll_loop zero sp s = s
roll_loop (suc k) sp s = let i = sp -ℤ pos (suc k) in roll_loop k sp (update s i (s (inc i)))

-- `none`: the loop counts a negative `tos` down for ever.
pub forth_roll : Vm → Option Vm
unfolding roll_loop
forth_roll v = elim v.tos [
  | pos n ↦
      let w = v.s (v.sp -ℤ pos n) in
      some (record v { w = w; s = roll_loop n v.sp v.s; sp = dec v.sp; tos = w })
  | negsuc n ↦ none
]
