-- ===== src/Throw/Tests.antt =====
-- Runs of `catch` and `throw`.
use post.Prelude.{ℤ, pos, negsuc, ◌≡◌, ◌≢◌, some, List, [], ◌∷◌, refl}
use post.Vm.{Vm, push, inc}
use post.Fixture.{with_stack, stack-with_stack, addresses}
use post.Throw.{frame, forth_throw, forth_throw0}
use post.Throw.Frames.{KeepsFrame, frame-KeepsFrame, throw-unwinds, throw0-unwinds}
use post.Stack.View.{stack}

-- The token 40 above two items.
abbrev items : List ℤ
items = pos 40 ∷ pos 2 ∷ pos 1 ∷ []

abbrev caller : Vm
caller = with_stack addresses items

-- The caught word took the token off and throws -9.
abbrev thrower : Vm
thrower = record (frame caller) { tos = negsuc 8 }

thrower-KeepsFrame : KeepsFrame caller thrower
thrower-KeepsFrame =
    let k = frame-KeepsFrame caller in
    record { newest = k.newest; link = k.link; depth = k.depth; return = k.return; items = k.items }

throw-unwinds_example :
    ((forth_throw thrower).ip ≡ caller.ip)
    × ((forth_throw thrower).rp ≡ caller.rp)
    × ((forth_throw thrower).catchframe ≡ caller.catchframe)
    × (stack (forth_throw thrower) ≡ some (negsuc 8 ∷ pos 2 ∷ pos 1 ∷ []))
unfolding push
throw-unwinds_example =
    throw-unwinds caller thrower (pos 40) (pos 2 ∷ pos 1 ∷ []) (stack-with_stack addresses items)
      thrower-KeepsFrame frame_at (λ e. absurd (cc))
  where
    frame_at : inc (inc (inc caller.rp)) ≢ pos 0
    frame_at e = absurd (cc)

-- The caught word returned, and `throw0`'s address is off the return stack.
abbrev returned : Vm
returned = record (frame caller) { rp = pos 3 }

returned-KeepsFrame : KeepsFrame caller returned
returned-KeepsFrame =
    let k = frame-KeepsFrame caller in
    record { newest = k.newest; link = k.link; depth = k.depth; return = k.return; items = k.items }

throw0-unwinds_example :
    ((forth_throw0 returned).ip ≡ caller.ip)
    × ((forth_throw0 returned).rp ≡ caller.rp)
    × ((forth_throw0 returned).catchframe ≡ caller.catchframe)
    × (stack (forth_throw0 returned) ≡ some (pos 0 ∷ pos 2 ∷ pos 1 ∷ []))
unfolding push
throw0-unwinds_example =
    throw0-unwinds caller returned (pos 40) (pos 2 ∷ pos 1 ∷ []) (stack-with_stack addresses items)
      returned-KeepsFrame frame_at
  where
    frame_at : returned.rp ≡ inc (inc (inc caller.rp))
    frame_at = refl
