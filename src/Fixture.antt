-- ===== src/Fixture.antt =====
-- Machines for the tests of all modules: what the script's state is after it pushed some items.
use post.Prelude.{ℤ, pos, Store, some, List, [], ◌∷◌, ◌≡◌, refl}
use post.Vm.{Vm, push}
use post.Stack.View.{stack, stack-push}

-- A machine with nothing on its stacks.
abbrev pub blank : Store → Vm
blank m = record {
  s = λ i. pos 0;
  sp = pos 0;
  tos = pos 0;
  r = λ i. pos 0;
  rp = pos 0;
  ip = pos 77;
  w = pos 0;
  m = m;
  dp = pos 1000;
  catchframe = pos 0;
  suspended = pos 0;
  events = [];
  warm = pos 60;
  brthrow0 = pos 50;
}

-- The items pushed, the last one of the list first.
abbrev pub with_stack : Store → List ℤ → Vm
with_stack m [] = blank m
with_stack m (x ∷ xs) = push x (with_stack m xs)

pub stack-with_stack : (m : Store) (xs : List ℤ) → stack (with_stack m xs) ≡ some xs
stack-with_stack m [] = refl
stack-with_stack m (x ∷ xs) = stack-push (with_stack m xs) x xs (stack-with_stack m xs)

-- A memory in which each cell holds its address.
abbrev pub addresses : Store
addresses i = i
