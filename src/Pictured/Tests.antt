-- ===== src/Pictured/Tests.antt =====
-- A run of pictured output.
use post.Prelude.{ℤ, pos, ◌+ℤ◌, ◌<ℤ◌, some, List, [], ◌∷◌, ◌≡◌}
use post.Memory.{paddistance}
use post.Fixture.{with_stack, stack-with_stack, addresses}
use post.Pictured.{Output, forth_lesshash, forth_hashmore}
use post.Pictured.Held.{cells, hold_all, hold_all-hashmore}
use post.Stack.View.{stack}

abbrev output : Output
output = record {
  vm = with_stack addresses (pos 0 ∷ pos 42 ∷ pos 7 ∷ []);
  picturedoutpos = pos 0;
  picturedoutlen = pos 0;
}

-- `42`
abbrev digits : List ℤ
digits = pos 52 ∷ pos 50 ∷ []

hold_all-hashmore_example :
    let p = forth_hashmore (hold_all digits (forth_lesshash output)) in
    (a : ℤ) × (stack p.vm ≡ some (pos 2 ∷ a ∷ pos 7 ∷ []))
    × (cells p.vm.m a 2 ≡ digits)
    × (a +ℤ pos 2 ≡ output.vm.dp +ℤ paddistance)
    × ((j : ℤ) → j +ℤ pos 2 <ℤ output.vm.dp +ℤ paddistance → p.vm.m j ≡ output.vm.m j)
hold_all-hashmore_example =
    hold_all-hashmore output digits (pos 0) (pos 42) (pos 7 ∷ [])
      (stack-with_stack addresses (pos 0 ∷ pos 42 ∷ pos 7 ∷ []))
