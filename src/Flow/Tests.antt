-- ===== src/Flow/Tests.antt =====
-- A run of a counted loop, of three rounds.
use post.Prelude.{ℤ, pos, negsuc, ◌+ℤ◌, ℕ, ◌≤◌, List, [], ◌∷◌, refl, arith}
use post.Vm.{Vm, push}
use post.Fixture.{with_stack, stack-with_stack, addresses}
use post.Flow.{forth_brdo}
use post.Flow.Count.{Rounds, InLoop, PastLoop, do-loop-Rounds}

-- From -1 up to 2.
abbrev loop_items : List ℤ
loop_items = negsuc 0 ∷ pos 2 ∷ []

abbrev looper : Vm
looper = with_stack addresses loop_items

do-loop-Rounds_example :
    ((k : ℕ) (u : Vm)
      → k ≤ 2
      → Rounds (pos 78) (pos 90) (forth_brdo looper) k u
      → InLoop (pos 78) looper (pos 2) (negsuc 0 +ℤ pos k) u)
    × ((u : Vm) → Rounds (pos 78) (pos 90) (forth_brdo looper) 3 u → PastLoop (pos 90) looper u)
unfolding push
do-loop-Rounds_example =
    do-loop-Rounds (pos 78) (pos 90) looper (negsuc 0) (pos 2) 2 []
      (record { at_least = omega arith; below_top = omega arith })
      (record { at_least = omega arith; below_top = omega arith }) refl
      (stack-with_stack addresses loop_items) refl
