-- ===== src/Vm.antt =====
-- The state of the Forth machine of reference/jsforth.js: the arrays `s`, `r` and `m`, and the
-- registers that its functions share. A cell is an integer.
use post.Prelude.{ℤ, pos, ◌+ℤ◌, ◌-ℤ◌, Store, update, List}

-- What the machine tells the world outside: the code that `exception` reports.
pub data Event : Type 0 where
  reported : ℤ → Event

pub record Vm : Type 0 where
  pub s : Store
  pub sp : ℤ
  pub tos : ℤ
  pub r : Store
  pub rp : ℤ
  pub ip : ℤ
  pub w : ℤ
  pub m : Store
  pub dp : ℤ
  pub catchframe : ℤ
  pub suspended : ℤ
  pub events : List Event
  -- Addresses that the script fixes while it loads.
  pub warm : ℤ
  pub brthrow0 : ℤ

-- `++n`, `--n`
abbrev pub inc : ℤ → ℤ
inc n = n +ℤ pos 1

abbrev pub dec : ℤ → ℤ
dec n = n -ℤ pos 1

-- `s[++sp] = tos ; tos = x`
unfoldable pub push : ℤ → Vm → Vm
push x v = record v { s = update v.s (inc v.sp) v.tos; sp = inc v.sp; tos = x }

-- `tos = s[sp--]`
unfoldable pub pop : Vm → Vm
pop v = record v { tos = v.s v.sp; sp = dec v.sp }

-- `r[++rp] = x`
unfoldable pub rpush : ℤ → Vm → Vm
rpush x v = record v { r = update v.r (inc v.rp) x; rp = inc v.rp }
