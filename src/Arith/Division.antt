-- ===== src/Arith/Division.antt =====
-- The division words.
use post.Prelude.{ℤ, pos, negsuc, ◌==ℤ◌, update, ℕ, suc, ◌-◌, ◌*◌, ◌^◌, if◌then◌else◌, ltb}
use post.Number.{js_mul, js_rem, js_quotient, js_floor, round53, negate}
use post.Vm.{Vm, dec}
use post.Throw.{throwerror}

-- `floorfix`, the double next below 1, in units of 2 ^ -1075.
abbrev pub floorfix : ℕ
floorfix = (2 ^ 53 - 1) * 2 ^ 1022

-- `q < 0 ? q + floorfix : q`, then `floor`
unfoldable pub toward_zero : ℤ → ℤ
unfolding js_floor round53
toward_zero (pos n) = js_floor (pos n)
toward_zero (negsuc n) = js_floor (
    if ltb floorfix (suc n)
    then negate (round53 (suc n - floorfix))
    else pos (round53 (floorfix - suc n)))

unfoldable pub quotient : ℤ → ℤ → ℤ
unfolding js_quotient toward_zero
quotient a b = toward_zero (js_quotient a b)

pub forth_div : Vm → Vm
unfolding quotient throwerror
forth_div v =
    if v.tos ==ℤ pos 0
    then throwerror (negsuc 9) v
    else record v { tos = quotient (v.s v.sp) v.tos; sp = dec v.sp }

pub forth_starslash : Vm → Vm
unfolding quotient throwerror
forth_starslash v =
    let sp1 = dec v.sp in
    if v.tos ==ℤ pos 0
    then throwerror (negsuc 9) v
    else record v { tos = quotient (js_mul (v.s v.sp) (v.s sp1)) v.tos; sp = dec sp1 }

pub forth_mod : Vm → Vm
unfolding throwerror
forth_mod v =
    if v.tos ==ℤ pos 0
    then throwerror (negsuc 9) v
    else record v { tos = js_rem (v.s v.sp) v.tos; sp = dec v.sp }

pub forth_slashmod : Vm → Vm
unfolding quotient throwerror
forth_slashmod v =
    let w = js_rem (v.s v.sp) v.tos in
    if v.tos ==ℤ pos 0
    then throwerror (negsuc 9) v
    else record v { w = w; tos = quotient (v.s v.sp) v.tos; s = update v.s v.sp w }

pub forth_starslashmod : Vm → Vm
unfolding quotient throwerror
forth_starslashmod v =
    let sp1 = dec v.sp in
    let w = js_mul (v.s v.sp) (v.s sp1) in
    if v.tos ==ℤ pos 0
    then throwerror (negsuc 9) v
    else record v { w = w; s = update v.s sp1 (js_rem w v.tos); sp = sp1; tos = quotient w v.tos }
