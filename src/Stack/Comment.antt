-- ===== src/Stack/Comment.antt =====
-- The stack comments that `describe` gives the operators of reference/jsforth.js, read as what they
-- say: names of the items before, `--`, names of the items after, the top of the stack last.
use Prim.Native.Char.{code}
use Prim.Native.String.{String}
use post.Prelude.{ℤ, ℕ, Bool, false, ◌&&◌, List, [], ◌∷◌, ◌==◌, if◌then◌else◌}
use post.Vm.{Vm}
use post.Stack.{
  forth_dup, forth_drop, forth_swap, forth_over, forth_rot, forth_minrot, forth_tuck, forth_nip,
  forth_2dup, forth_2drop, forth_2swap, forth_2over,
}

-- The operators that only rearrange the stack.
pub data Shuffle : Type 0 where
  dup drop swap over rot minrot tuck nip two_dup two_drop two_swap two_over : Shuffle

-- The function that `primitive` installs for each.
unfoldable pub run : Shuffle → Vm → Vm
run dup = forth_dup
run drop = forth_drop
run swap = forth_swap
run over = forth_over
run rot = forth_rot
run minrot = forth_minrot
run tuck = forth_tuck
run nip = forth_nip
run two_dup = forth_2dup
run two_drop = forth_2drop
run two_swap = forth_2swap
run two_over = forth_2over

-- The first argument of `describe`.
unfoldable pub comment : Shuffle → String
comment dup = "x -- x x"
comment drop = "x --"
comment swap = "x1 x2 -- x2 x1"
comment over = "x1 x2 -- x1 x2 x1"
comment rot = "x1 x2 x3 -- x2 x3 x1"
comment minrot = "x1 x2 x3 -- x3 x1 x2"
comment tuck = "x1 x2 -- x2 x1 x2"
comment nip = "x1 x2 -- x2"
comment two_dup = "x1 x2 -- x1 x2 x1 x2"
comment two_drop = "x1 x2 --"
comment two_swap = "x1 x2 x3 x4 -- x3 x4 x1 x2"
comment two_over = "x1 x2 x3 x4 -- x1 x2 x3 x4 x1 x2"

abbrev pub Name : Type 0
Name = List ℕ

abbrev codes : String → List ℕ
codes String.[] = []
codes (String.◌∷◌ c s) = code c ∷ codes s

abbrev extend : ℕ → List Name → List Name
extend c [] = (c ∷ []) ∷ []
extend c (t ∷ ts) = (c ∷ t) ∷ ts

-- The words of a text, between blanks.
abbrev words : List ℕ → List Name
words [] = [] ∷ []
words (c ∷ cs) = let rest = words cs in if c == b' ' then [] ∷ rest else extend c rest

abbrev is_dashes : Name → Bool
is_dashes (a ∷ b ∷ []) = a == b'-' && b == b'-'
is_dashes _ = false

abbrev before_dashes : List Name → List Name
before_dashes [] = []
before_dashes (t ∷ ts) = let rest = before_dashes ts in if is_dashes t then [] else t ∷ rest

abbrev after_dashes : List Name → List Name
after_dashes [] = []
after_dashes (t ∷ ts) = let rest = after_dashes ts in if is_dashes t then ts else rest

unfoldable pub inputs : Shuffle → List Name
unfolding comment
inputs w = before_dashes (words (codes (comment w)))

unfoldable pub outputs : Shuffle → List Name
unfolding comment
outputs w = after_dashes (words (codes (comment w)))

-- The items of the names, pushed from left to right onto a stack.
abbrev pub onto : (Name → ℤ) → List Name → List ℤ → List ℤ
onto value [] xs = xs
onto value (t ∷ ts) xs = onto value ts (value t ∷ xs)
