-- ===== src/Blocks/Web.antt =====
-- The drive on the web server of reference/jsforth.js: what is asked of the browser, and what its answer does.
mod Layout
mod Unpacked
mod Answer
mod Tests
use post.Prelude.{
  ℤ, pos, negsuc, ◌+ℤ◌, ◌==ℤ◌, Store, update, ℕ, ◌+◌, ◌-◌, ◌%◌, leb, ◌==◌, ◌&&◌, not, if◌then◌else◌,
  Option, none, some, List, [], ◌∷◌, ◌++◌,
}
use post.Text.{Text}
use post.Throw.{throwerror}
use post.Input.{bl}
use post.Memory.{fill_loop}
use post.Blocks.{Blocks}

-- A round of the loop: a line feed pads its line with blanks.
unfoldable pub put_unit : (temp outpointer : ℕ) (bufaddr : ℤ) → Store → ℕ × Store
unfolding fill_loop
put_unit temp outpointer bufaddr m =
    let j = 64 - outpointer % 64 in
    if temp == 10
    then (outpointer + j, fill_loop j (bufaddr +ℤ pos outpointer) bl m)
    else (outpointer + 1, update m (bufaddr +ℤ pos outpointer) (pos temp))

-- The loop, which stops where the buffer is full.
unfoldable pub unpack_loop : Text → (outpointer : ℕ) (bufaddr : ℤ) → Store → ℕ × Store
unfolding put_unit
unpack_loop [] outpointer bufaddr m = (outpointer, m)
unpack_loop (temp ∷ cs) outpointer bufaddr m =
    let put = put_unit temp outpointer bufaddr m in
    let rest = unpack_loop cs put.0 bufaddr put.1 in if leb 1024 put.0 then put else rest

unfoldable pub unpack_contents : Text → ℤ → Store → Store
unfolding unpack_loop fill_loop
unpack_contents contents bufaddr m =
    let (outpointer, m1) = unpack_loop contents 0 bufaddr m in
    fill_loop (1024 - outpointer) (bufaddr +ℤ pos outpointer) bl m1

-- `contents` is the text of the file, where it has one; an empty text counts as none. Where no address is
-- queued, the script writes to no cell.
unfoldable pub unpackfiletobuffer : Option Text → Blocks → Blocks
unfolding unpack_contents
unpackfiletobuffer contents b = elim b.bufferforrequest [
  | [] ↦ b
  | bufaddr ∷ addresses ↦
      let taken = record b { bufferforrequest = addresses } in
      elim contents [
        | none ↦ taken
        | some [] ↦ taken
        | some (c ∷ cs) ↦ record taken {
          vm = record (b.vm) { m = unpack_contents (c ∷ cs) bufaddr b.vm.m };
        }
      ]
]

-- `virtualmachine ip b` is what the inner interpreter does from `ip` on. A blank queue of requests
-- is left alone.
unfoldable pub loading_complete_event :
    (virtualmachine : ℤ → Blocks → Blocks) → Option Text → Blocks → Blocks
unfolding unpackfiletobuffer
loading_complete_event virtualmachine remotefile b =
    let waits = b.vm.suspended ==ℤ b.waitingforblock in
    let woken = if waits then record b { vm = record (b.vm) { suspended = pos 0 } } else b in
    let filled = unpackfiletobuffer remotefile woken in
    let counted = record filled { requesting_load = filled.requesting_load - 1 } in
    if b.requesting_load == 0
    then b
    else if waits
    then virtualmachine counted.vm.ip counted
    else counted

-- The watchdog of a request.
unfoldable pub blockreadtimeout : Blocks → Blocks
unfolding throwerror
blockreadtimeout b = record b { requesting_load = 0; vm = throwerror (negsuc 36) b.vm }
