-- ===== src/Inner.antt =====
-- The inner interpreter of reference/jsforth.js: `virtualmachine`, which reads tokens at `ip`, and the code that
-- the array `t` holds for each kind of word. `t i v` is what `t[i]()` does to the machine.
mod Steps
mod Meaning
mod Cells
mod Arrive
mod Primitive
mod Counted
mod CountedLoops
mod Structures
mod Runs
mod Conditional
mod Loops
mod Refine
mod Call
mod Colon
mod Tests
use post.Prelude.{ℤ, pos, ◌==ℤ◌, ℕ, zero, suc, Option, none, some, if◌then◌else◌}
use post.Vm.{Vm, push, rpush, inc}

-- `w = m[ip++] ; t[w]()`
unfoldable pub step : (t : ℤ → Vm → Vm) → Vm → Vm
step t v = t (v.m v.ip) (record v { w = v.m v.ip; ip = inc v.ip })

-- The loop of `virtualmachine`, for at most so many words.
unfoldable pub run : (t : ℤ → Vm → Vm) → ℕ → Vm → Option Vm
unfolding step
run t zero v = none
run t (suc fuel) v =
    let v1 = step t v in
    let rest = run t fuel v1 in if v1.suspended ==ℤ pos 0 then rest else some v1

unfoldable pub virtualmachine : (t : ℤ → Vm → Vm) → ℕ → (entrypoint : ℤ) → Vm → Option Vm
unfolding run
virtualmachine t fuel entrypoint v = run t fuel (record v { suspended = pos 0; ip = entrypoint })

-- The array `x` of the script, at the two types at which it is read: a function for a primitive, and
-- the address of the body for any other word.
pub record Bodies : Type 0 where
  pub function : ℤ → Vm → Vm
  pub address : ℤ → ℤ

module _ (x : Bodies) where
  pub nextprimitive : Vm → Vm
  nextprimitive v = x.function v.w v

  unfoldable pub nexthilevel : Vm → Vm
  nexthilevel v = let v1 = record v { w = x.address v.w } in x.function (v1.m v1.w) v1

  unfoldable pub nextconstant : Vm → Vm
  unfolding push
  nextconstant v = push (v.m (inc (x.address v.w))) v

  unfoldable pub nextvariable : Vm → Vm
  unfolding push
  nextvariable v = push (inc (x.address v.w)) v

  pub dodoes : (t : ℤ → Vm → Vm) → Vm → Vm
  unfolding push rpush step
  dodoes t v =
      let v1 = push (x.address v.w) v in
      let v2 = rpush v1.ip v1 in step t (record v2 { ip = v2.m v2.tos; tos = inc v2.tos })
