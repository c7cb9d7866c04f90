-- ===== src/Terminal.antt =====
-- The lines of the terminal of reference/jsforth.js: what `type`, `cr`, `cls` and `backspaces` do to them. What the
-- browser shows of them is left out.
mod Wrap
mod Typed
mod Tests
use post.Prelude.{
  ℤ, pos, negsuc, ℕ, zero, suc, ◌+◌, ◌-◌, ltb, leb, if◌then◌else◌, List, [], ◌∷◌, ◌++◌, length,
  take, drop,
}
use post.Text.{Text, char_code}

abbrev pub linelen : ℕ
linelen = 80

abbrev pub lines : ℕ
lines = 30

-- The arrays, the top line first.
pub record Screen : Type 0 where
  pub terminal : List Text
  pub charsperline : List ℕ
  pub linesonscreen : ℕ

-- `a[i]`, or `default` out of bounds.
abbrev pub at : {A : Type 0} → A → List A → ℕ → A
at default [] i = default
at default (x ∷ xs) zero = x
at default (x ∷ xs) (suc i) = at default xs i

-- `a[i] = f(a[i])`
abbrev pub modify : {A : Type 0} → (A → A) → ℕ → List A → List A
modify f i [] = []
modify f zero (x ∷ xs) = f x ∷ xs
modify f (suc i) (x ∷ xs) = x ∷ modify f i xs

-- `if (lastline >= lines) { terminal.shift() ; charsperline.shift() ; lastline-- ; }`
abbrev pub scroll : ℕ → Screen → Screen
scroll lastline t =
    if leb lines lastline
    then record t { terminal = drop 1 t.terminal; charsperline = drop 1 t.charsperline }
    else t

abbrev pub scrolled : ℕ → ℕ
scrolled lastline = if leb lines lastline then lastline - 1 else lastline

-- A round of the loop of `type` at `lastline`: what is beyond the terminal's width goes to a new line.
abbrev pub break_line : ℕ → Screen → Screen
break_line lastline t = record t {
  terminal =
      modify (take linelen) lastline (t.terminal ++ drop linelen (at [] t.terminal lastline) ∷ []);
  charsperline =
      modify (λ n. linelen) lastline
        (t.charsperline ++ (at 0 t.charsperline lastline - linelen) ∷ []);
}

-- The loop, with as many rounds at most as `fuel`; `linesonscreen` is `lastline + 1` in the end.
pub type_loop : ℕ → ℕ → Screen → Screen
type_loop zero lastline t = record t { linesonscreen = suc lastline }
type_loop (suc fuel) lastline t =
    let place = scrolled lastline in
    let rest = type_loop fuel (suc place) (break_line place (scroll lastline t)) in
    if ltb linelen (at 0 t.charsperline lastline)
    then rest
    else record t { linesonscreen = suc lastline }

-- Each round takes 80 characters off the last line, so its length is fuel enough.
unfoldable pub type : Text → Screen → Screen
unfolding type_loop
type string t =
    let i = t.linesonscreen - 1 in
    let typed = record t {
      terminal = modify (λ line. line ++ string) i t.terminal;
      charsperline = modify (λ n. n + length string) i t.charsperline;
    } in
    let count = at 0 typed.charsperline i in
    let broken = type_loop count i typed in if leb count linelen then typed else broken

-- The loop of `cr`, for `n` lines too many.
abbrev pub shift_lines : ℕ → Screen → Screen
shift_lines zero t = t
shift_lines (suc n) t = shift_lines n (record t {
  terminal = drop 1 t.terminal;
  charsperline = drop 1 t.charsperline;
  linesonscreen = t.linesonscreen - 1;
})

unfoldable pub cr : Screen → Screen
cr t =
    let added = record t {
      terminal = t.terminal ++ [] ∷ [];
      charsperline = t.charsperline ++ 0 ∷ [];
      linesonscreen = t.linesonscreen + 1;
    } in
    if ltb added.linesonscreen lines then added else shift_lines (added.linesonscreen - lines) added

-- `a.pop()`, for what it leaves of the array
abbrev pub pop_line : {A : Type 0} → List A → List A
pop_line xs = take (length xs - 1) xs

-- The loop of `cls`, for `n` lines.
abbrev pub pop_lines : ℕ → Screen → Screen
pop_lines zero t = t
pop_lines (suc n) t = pop_lines n (record t {
  terminal = pop_line t.terminal;
  charsperline = pop_line t.charsperline;
  linesonscreen = t.linesonscreen - 1;
})

pub cls : Screen → Screen
cls t =
    let one = pop_lines (t.linesonscreen - 1) t in
    record one {
      terminal = modify (λ line. []) 0 one.terminal;
      charsperline = modify (λ n. 0) 0 one.charsperline;
    }

pub backspaces : ℤ → Screen → Screen
backspaces (negsuc _) t = t
backspaces (pos zero) t = t
backspaces (pos (suc n)) t =
    let lastline = t.linesonscreen - 1 in
    let charstoremain = at 0 t.charsperline lastline - suc n in
    record t {
      terminal = modify (take charstoremain) lastline t.terminal;
      charsperline = modify (λ k. charstoremain) lastline t.charsperline;
    }

unfoldable pub emit : ℤ → Screen → Screen
unfolding type
emit asc t = type (char_code asc ∷ []) t

unfoldable pub querytype : Text → Screen → Screen
unfolding type cr
querytype string t =
    let count = at 0 t.charsperline (t.linesonscreen - 1) + length string in
    type string (if ltb linelen count then cr t else t)
