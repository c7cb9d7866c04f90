-- ===== src/Digit.antt =====
-- Number input: `digit` and `?number`, of reference/jsforth.js.
mod Value
mod Numeral
mod Entry
mod Tests
use post.Prelude.{
  ℤ, pos, negsuc, ◌+ℤ◌, ◌-ℤ◌, ◌==ℤ◌, ltb_ℤ, leb_ℤ, Store, update, ℕ, zero, suc, Bool, true, false,
  ◌&&◌, Option, none, some, if◌then◌else◌,
}
use post.Number.{js_sub, js_add, js_mul, js_and}
use post.Dictionary.{state}
use post.Vm.{Vm, inc, dec}

-- The variable `base` of the script: the address of its cell.
abbrev pub base : ℤ
base = pos 12

-- `if ( tos > 9 ) { if ( tos < 17 ) tos = -1 ; tos -= 7 ; }`
abbrev pub skip_to_letters : ℤ → ℤ
skip_to_letters t =
    if ltb_ℤ (pos 9) t then js_sub (if ltb_ℤ t (pos 17) then negsuc 0 else t) (pos 7) else t

-- `if ( tos > 41 ) tos -= 32`
abbrev pub skip_to_small : ℤ → ℤ
skip_to_small t = if ltb_ℤ (pos 41) t then js_sub t (pos 32) else t

-- The value of a digit, or -1.
abbrev pub digit : (radix tos : ℤ) → ℤ
digit radix tos =
    let t = skip_to_small (skip_to_letters (js_sub tos (pos 48))) in
    if leb_ℤ (pos 0) t then (if ltb_ℤ t radix then t else negsuc 0) else negsuc 0

pub forth_digit : Vm → Vm
forth_digit v = record v { tos = digit (v.m base) v.tos }

-- What the loop of `?number` leaves: whether all characters were digits of the base, the number, and `w`.
pub record Reading : Type 0 where
  pub valid : Bool
  pub number : ℤ
  pub next : ℤ

-- The loop over `i` characters from `w` on.
number_loop : ℕ → Store → (radix w number : ℤ) → Reading
number_loop zero m radix w number = record { valid = true; number = number; next = w }
number_loop (suc i) m radix w number =
    let d = js_sub (m w) (pos 48) in
    let d1 = if ltb_ℤ (pos 9) d then js_sub d (pos 7) else d in
    let d2 = skip_to_small d1 in
    let rest = number_loop i m radix (inc w) (js_add (js_mul number radix) d2) in
    let invalid : Reading = record { valid = false; number = number; next = inc w } in
    if ltb_ℤ (pos 9) d && ltb_ℤ d (pos 17)
    then invalid
    else if ltb_ℤ d2 (pos 0)
    then invalid
    else if leb_ℤ radix d2
    then invalid
    else rest

-- Whether the text begins with `-`, and where its digits are.
abbrev pub sign_of : Store → ℤ → Bool
sign_of m w = m w ==ℤ pos 45

-- What follows the loop: `if (tos) { .. s[sp] &= 0xffffffff } else sp--`.
finish : Bool → Reading → Vm → Vm
finish sign r v =
    let signed = if sign then pos 0 -ℤ r.number else r.number in
    if r.valid
    then record v {
      w = r.next;
      s = update v.s v.sp (js_and signed (pos 0xffff_ffff));
      tos = negsuc 0;
    }
    else record v { w = r.next; s = update v.s v.sp r.number; sp = dec v.sp; tos = pos 0 }

-- The loop over `count` characters from `w` on, and what follows. `none`: it counts below 0.
single_number : Bool → (w count : ℤ) → Vm → Option Vm
unfolding number_loop finish
single_number sign w (negsuc _) v = none
single_number sign w (pos i) v = some (finish sign (number_loop i v.m (v.m base) w (pos 0)) v)

-- ( a n -- x -1 | 0 )
pub forth_qsinglenumber : Vm → Option Vm
unfolding single_number
forth_qsinglenumber v =
    let a = v.s v.sp in
    let sign = sign_of v.m a in
    single_number sign (if sign then inc a else a) (if sign then dec v.tos else v.tos) v

-- A text that ends with a point is no number.
unfoldable pub forth_qnumber : Vm → Option Vm
unfolding forth_qsinglenumber
forth_qnumber v =
    let rest = forth_qsinglenumber v in
    if v.m (v.s v.sp +ℤ v.tos -ℤ pos 1) ==ℤ pos 46
    then some (record v { sp = dec v.sp; tos = pos 0 })
    else rest

-- Compiles the number where the interpreter compiles; `x_lit` is the token of `(lit)`.
pub forth_interpretnumber : ℤ → Vm → Option Vm
unfolding forth_qnumber
forth_interpretnumber x_lit v = elim (forth_qnumber v) [
  | none ↦ none
  | some u ↦
      let m1 = update u.m u.dp x_lit in
      let compiled = record u {
        m = update m1 (inc u.dp) (u.s u.sp);
        dp = inc (inc u.dp);
        sp = dec u.sp;
        tos = negsuc 0;
      } in
      if u.tos ==ℤ pos 0 then some u else if u.m state ==ℤ pos 0 then some u else some compiled
]
