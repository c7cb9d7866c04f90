-- ===== src/Stack/Tests.antt =====
-- Runs of the stack operators.
use post.Prelude.{ℤ, pos, ◌-◌, some, List, [], ◌∷◌, ◌≡◌, refl}
use post.Vm.{Vm}
use post.Fixture.{with_stack, stack-with_stack, addresses}
use post.Stack.{forth_roll}
use post.Stack.Comment.{Shuffle, run, Name, inputs, outputs}
use post.Stack.View.{stack}
use post.Stack.Effects.{run-comment}
use post.Stack.Roll.{roll-stack}

abbrev items : List ℤ
items = pos 4 ∷ pos 3 ∷ pos 2 ∷ pos 1 ∷ []

-- The value of `x1`, `x2` and so on is the number that follows the letter.
abbrev numbered : Name → ℤ
numbered (x ∷ d ∷ _) = pos (d - 48)
numbered _ = pos 0

run-comment_example :
    stack (run Shuffle.two_swap (with_stack addresses items))
    ≡ some (pos 2 ∷ pos 1 ∷ pos 4 ∷ pos 3 ∷ [])
unfolding inputs outputs
run-comment_example =
    run-comment Shuffle.two_swap numbered (with_stack addresses items) []
      (stack-with_stack addresses items)

roll-stack_example :
    (v' : Vm) × (forth_roll (with_stack addresses (pos 2 ∷ items)) ≡ some v')
    × (stack v' ≡ some (pos 2 ∷ pos 4 ∷ pos 3 ∷ pos 1 ∷ []))
roll-stack_example =
    roll-stack (with_stack addresses (pos 2 ∷ items)) 2 (pos 2) items
      (stack-with_stack addresses (pos 2 ∷ items)) refl

abbrev two : Vm
two = with_stack addresses (pos 8 ∷ pos 9 ∷ [])
