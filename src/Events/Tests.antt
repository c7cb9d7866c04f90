-- ===== src/Events/Tests.antt =====
-- Keys that are pressed before and while the machine waits for one.
use post.Prelude.{
  ℤ, pos, ◌==ℤ◌, if◌then◌else◌, Option, some, [], ◌∷◌, Store, update, ◌≡◌, ◌≢◌, refl,
}
use post.Fixture.{with_stack, stack-with_stack, addresses}
use post.Vm.{push}
use post.Stack.View.{stack}
use post.Input.{Input, forth_key1, forth_key2}
use post.Events.{run_keys, virtualmachine_keys, key_event}
use post.Events.Keys.{presses, KeyCode, keys-delivered}

-- The token of `key1` is 5, that of `key2` is 6; any other word suspends the machine.
abbrev codes : ℤ → Input → Option Input
codes x i =
    let ended = some (record i { vm = record (i.vm) { suspended = pos 9 } }) in
    let second = forth_key2 i in
    if x ==ℤ pos 5 then some (forth_key1 i) else if x ==ℤ pos 6 then second else ended

-- The code of `key key` at 77.
abbrev two_keys : Store
two_keys =
    update (update (update (update addresses (pos 77) (pos 5)) (pos 78) (pos 6)) (pos 79) (pos 5))
      (pos 80) (pos 6)

-- A machine that waits for a block.
abbrev idle : Input
idle = record {
  vm = record (with_stack two_keys (pos 3 ∷ [])) { suspended = pos 9; ip = pos 77 };
  parsebuf = pos 100;
  parsebuflen = pos 0;
  sourceid = [];
  inbuf = [];
  echo = [];
}

five-ne : pos 5 ≢ pos 0
five-ne e = cc

nine-ne : pos 9 ≢ pos 5
nine-ne e = cc

keys-delivered_example :
    (pressed : Input) × (waiting : Input) × (after : Input) × (presses codes 7
        (pos 5)
        (pos 66 ∷ [])
        idle
      ≡ some pressed)
    × (virtualmachine_keys codes 3 (pos 77) pressed ≡ some waiting)
    × (waiting.vm.suspended ≡ pos 5)
    × (stack waiting.vm ≡ some (pos 66 ∷ pos 3 ∷ []))
    × (key_event codes 8 (pos 5) (pos 65) waiting ≡ run_keys codes 7 after)
    × (stack after.vm ≡ some (pos 65 ∷ pos 66 ∷ pos 3 ∷ []))
    × (after.vm.ip ≡ pos 81)
    × (after.inbuf ≡ [])
    × (after.vm.m ≡ two_keys)
unfolding push KeyCode
keys-delivered_example =
    keys-delivered codes (pos 5) (pos 6) five-ne (λ i. refl) (λ i. refl) 7 (pos 65) (pos 66 ∷ [])
      (pos 3 ∷ []) idle nine-ne refl (refl, refl, (refl, refl))
      (stack-with_stack two_keys (pos 3 ∷ []))
