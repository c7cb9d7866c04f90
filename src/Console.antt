-- ===== src/Console.antt =====
-- The words of reference/jsforth.js that write to the terminal, and its info screen.
pub mod Info
mod Listing
use post.Prelude.{
  ℤ, pos, ◌+ℤ◌, negsuc, ◌==ℤ◌, ltb_ℤ, leb_ℤ, ℕ, zero, suc, ◌-◌, ◌/◌, ltb, leb, if◌then◌else◌,
  Option, none, some, List, [], ◌∷◌, ◌++◌, length, take, not,
}
use post.Vm.{Vm, push, pop, inc, dec}
use post.Text.{Text, pack}
use post.Text.Literal.{units}
use post.Blocks.{spaces}
use post.Dictionary.{state}
use post.Flow.{forth_brsquote}
use post.Throw.{throwerror}
use post.Terminal.{Screen, linelen, type, cr, emit}

-- The machine with its terminal.
pub record Console : Type 0 where
  pub vm : Vm
  pub screen : Screen

-- `pack` of the text at the address `a`; a negative count never ends.
abbrev pub packed : (a n : ℤ) → Vm → Option Text
packed a (pos n) v = some (pack v.m a n)
packed a (negsuc _) v = none

-- `lineofspaces`
abbrev pub lineofspaces : Text
lineofspaces = spaces linelen

-- The loop of `spaces`, where `fuel` is at least the count: each round takes 80 off it.
spaces_loop : ℕ → ℕ → Screen → ℕ × Screen
unfolding type
spaces_loop zero n t = (n, t)
spaces_loop (suc fuel) n t =
    let rest = spaces_loop fuel (n - linelen) (type lineofspaces t) in
    if ltb linelen n then rest else (n, t)

-- The columns that `spaces` has left for its last call of `type`; a substring to a negative index is empty.
abbrev pub count_of : ℤ → ℕ
count_of (pos n) = n
count_of (negsuc _) = zero

unfoldable pub forth_spaces : Console → Console
unfolding spaces_loop type pop
forth_spaces c =
    let n = count_of c.vm.tos in
    let (rest, t) = spaces_loop n n c.screen in
    record { vm = pop c.vm; screen = type (take rest lineofspaces) t }

unfoldable pub center : Text → Screen → Screen
unfolding type
center string t = type (take ((linelen - length string) / 2) lineofspaces ++ string) t

pub forth_space : Console → Console
unfolding type
forth_space c = record c { screen = type (units " ") c.screen }

pub forth_emit : Console → Console
unfolding emit pop
forth_emit c = record { vm = pop c.vm; screen = emit c.vm.tos c.screen }

-- `( a n -- )`
unfoldable pub forth_type : Console → Option Console
unfolding type pop
forth_type c =
    let v = c.vm in
    elim (packed (v.s v.sp) v.tos v) [
      | none ↦ none
      | some string ↦
          some (record { vm = pop (record v { sp = dec v.sp }); screen = type string c.screen })
    ]

-- `(.")`, whose text stands in the code.
unfoldable pub forth_brdotquote : Console → Option Console
unfolding forth_brsquote forth_type
forth_brdotquote c = forth_type (record c { vm = forth_brsquote c.vm })

-- The points of the prompt.
dots : ℕ → Screen → Screen
unfolding type
dots zero t = t
dots (suc n) t = dots n (type (units ".") t)

unfoldable pub forth_prompt : Console → Console
unfolding type cr dots
forth_prompt c =
    let v = c.vm in
    let ok = type (units " ok") c.screen in
    let pointed : Screen = elim v.sp [
      | pos n ↦ dots (if leb n 16 then n else 16) ok
      | negsuc _ ↦ ok
    ] in
    record c {
      screen = if v.m state ==ℤ pos 0 then cr pointed else type (units "|  ") (cr c.screen);
    }

-- `number_text` writes a number in the base that the variable `base` holds: JavaScript's `toString`.
module _ (number_text : ℤ → ℤ → Text) (base : ℤ) where
  -- The items from cell `i + 1` on.
  dots_loop : ℕ → ℤ → Vm → Screen → Screen
  unfolding type
  dots_loop zero i v t = t
  dots_loop (suc n) i v t =
      dots_loop n (inc i) v (type (number_text (v.s (inc i)) (v.m base) ++ units " ") t)

  -- `.s`: the items below the one that it pushes.
  unfoldable pub forth_dots : Console → Console
  unfolding dots_loop push
  forth_dots c =
      let v = push c.vm.tos c.vm in
      let n = count_of (dec v.sp) in
      record { vm = record v { sp = dec v.sp }; screen = dots_loop n (pos 1) v c.screen }

-- `(abort")`, with the text that `systemerror[2]` becomes.
unfoldable pub forth_brabortquote : Vm → Option (Option Text × Vm)
unfolding forth_brsquote throwerror pop
forth_brabortquote v =
    let quoted = forth_brsquote v in
    let passed = pop (record v { ip = v.ip +ℤ (v.m v.ip +ℤ pos 1) }) in
    if v.tos ==ℤ pos 0
    then some (none, passed)
    else elim (packed (quoted.s quoted.sp) quoted.tos quoted) [
      | none ↦ none
      | some string ↦
          some (some string, throwerror (negsuc 1) (record quoted { sp = dec quoted.sp }))
    ]
