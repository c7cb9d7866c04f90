-- ===== src/Pictured.antt =====
-- Pictured number output and the dictionary pointer: `<#`, `hold`, `sign`, `#>`, `here`, `allot` and `,`
-- of reference/jsforth.js.
mod Held
mod Tests
use post.Prelude.{ℤ, pos, negsuc, ◌+ℤ◌, ◌-ℤ◌, ltb_ℤ, leb_ℤ, update, if◌then◌else◌}
use post.Vm.{Vm, push, pop, inc, dec}
use post.Memory.{paddistance}
use post.Throw.{throwerror}

-- The machine with the variables `picturedoutpos` and `picturedoutlen`.
pub record Output : Type 0 where
  pub vm : Vm
  pub picturedoutpos : ℤ
  pub picturedoutlen : ℤ

pub forth_lesshash : Output → Output
forth_lesshash o = record o { picturedoutpos = o.vm.dp +ℤ paddistance; picturedoutlen = pos 0 }

-- `m[--picturedoutpos] = c ; picturedoutlen++`
abbrev pub hold_char : ℤ → Output → Output
hold_char c o =
    let at = dec o.picturedoutpos in
    record o {
      vm = record (o.vm) { m = update o.vm.m at c };
      picturedoutpos = at;
      picturedoutlen = inc o.picturedoutlen;
    }

pub forth_hold : Output → Output
unfolding pop
forth_hold o = let o1 = hold_char o.vm.tos o in record o1 { vm = pop o1.vm }

pub forth_sign : Output → Output
unfolding pop
forth_sign o =
    let o1 = if ltb_ℤ o.vm.tos (pos 0) then hold_char (pos 45) o else o in
    record o1 { vm = pop o1.vm }

pub forth_hashmore : Output → Output
forth_hashmore o =
    let v = o.vm in
    record o { vm = record v { s = update v.s v.sp o.picturedoutpos; tos = o.picturedoutlen } }

-- `dictionaryfull = memend - (paddistance + padsize)`
abbrev pub dictionaryfull : ℤ
dictionaryfull = pos 0x100000 -ℤ (paddistance +ℤ pos 512)

pub forth_here : Vm → Vm
unfolding push
forth_here v = push v.dp v

pub forth_allot : Vm → Vm
unfolding pop throwerror
forth_allot v =
    if ltb_ℤ dictionaryfull (v.dp +ℤ v.tos)
    then throwerror (negsuc 7) v
    else pop (record v { dp = v.dp +ℤ v.tos })

-- The function `comma` of the source, which checks for room.
unfoldable pub comma_checked : ℤ → Vm → Vm
unfolding throwerror
comma_checked x v =
    if leb_ℤ dictionaryfull (inc v.dp)
    then throwerror (negsuc 7) v
    else record v { m = update v.m v.dp x; dp = inc v.dp }

unfoldable pub forth_comma : Vm → Vm
unfolding comma_checked pop
forth_comma v = pop (comma_checked v.tos v)
