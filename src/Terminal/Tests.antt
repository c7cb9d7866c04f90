-- ===== src/Terminal/Tests.antt =====
-- A text that is typed on a screen of one line.
use post.Prelude.{ℕ, zero, suc, [], ◌∷◌, ◌++◌, ◌≡◌, refl, arith}
use post.Text.{Text}
use post.Terminal.{Screen, type, type_loop}
use post.Terminal.Typed.{IsScreen, Shows, joined, type-IsScreen}

abbrev stars : ℕ → Text
stars zero = []
stars (suc n) = b'*' ∷ stars n

abbrev one_line : Screen
one_line = record { terminal = stars 70 ∷ []; charsperline = 70 ∷ []; linesonscreen = 1 }

one_line-IsScreen : IsScreen one_line
one_line-IsScreen = record {
  counted = refl;
  numbered = refl;
  short = (omega arith, tt);
  few = omega arith;
}

type-IsScreen_example :
    IsScreen (type (stars 100) one_line)
    × Shows (type (stars 100) one_line) (joined one_line.terminal ++ stars 100)
type-IsScreen_example = type-IsScreen (stars 100) one_line one_line-IsScreen (omega arith)

-- 170 characters fill two lines and ten columns.
typed_lines : (type (stars 100) one_line).charsperline ≡ 80 ∷ 80 ∷ 10 ∷ []
unfolding type type_loop
typed_lines = refl
