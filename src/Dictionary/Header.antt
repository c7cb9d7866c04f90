-- ===== src/Dictionary/Header.antt =====
-- The words of reference/jsforth.js that change headers and vocabularies.
use post.Prelude.{
  ℤ, pos, negsuc, ◌==ℤ◌, leb_ℤ, update, ℕ, zero, suc, ◌&&◌, ◌==◌, if◌then◌else◌, Option, none, some,
  [], ◌∷◌,
}
use post.Number.{js_and, js_or, negate, magnitude}
use post.Vm.{Vm, push, inc, dec}
use post.Throw.{throwerror}
use post.Dictionary.{
  Dictionary, context, current, forth, hidden, is_header, lastxt, only, precedencebit, put_at,
  set_context, smudgebit, state, teststuff,
}

-- `hf[a]`; `undefined` counts as 0 for `&`.
abbrev pub flags_of : Dictionary → ℤ → ℤ
flags_of d (pos n) = d.hf n
flags_of d (negsuc n) = pos 0

-- `-(flags & precedencebit)`, on a token in `tos`
pub forth_qimm : Dictionary → Dictionary
forth_qimm d =
    let v = d.vm in
    record d {
      vm = record v { tos = negate (magnitude (js_and (flags_of d v.tos) precedencebit)) };
    }

-- `hf[wc] &= (!smudgebit)`: `!` of the bit is `false`, so that no flag is left.
pub forth_hide : Dictionary → Dictionary
forth_hide d = record d { hf = put_at d.hf d.wc (js_and (d.hf d.wc) (pos 0)) }

unfoldable pub forth_reveal : Dictionary → Dictionary
forth_reveal d = record d { hf = put_at d.hf d.wc (js_or (d.hf d.wc) smudgebit) }

pub forth_immediate : Dictionary → Dictionary
forth_immediate d = record d { hf = put_at d.hf d.wc (js_or (d.hf d.wc) precedencebit) }

pub forth_compiling : Vm → Vm
unfolding push
forth_compiling v = push (v.m state) v

-- `true` and `false` are 1 and 0 where a cell is read as a number.
pub forth_brclose : Vm → Vm
forth_brclose v = record v { m = update v.m state (pos 1) }

pub forth_bropen : Vm → Vm
forth_bropen v = record v { m = update v.m state (pos 0) }

-- After the throw the function goes on with the `tos` that it left; `none`: `x[tos]` is `undefined`.
pub forth_tobody : Dictionary → Option Dictionary
unfolding throwerror
forth_tobody d =
    let v = d.vm in
    let v1 = if leb_ℤ v.tos (pos d.primitives) then throwerror (negsuc 30) v else v in
    elim v1.tos [
      | pos n ↦ some (record d { vm = record v1 { tos = inc (d.x n) } })
      | negsuc _ ↦ none
    ]

body_loop : ℕ → Dictionary → ℤ → ℕ
body_loop zero d a = zero
body_loop (suc i) d a =
    let rest = body_loop i d a in
    if is_header (d.h (suc i)) && (d.x (suc i) ==ℤ a) then suc i else rest

pub forth_bodyfrom : Dictionary → Dictionary
unfolding body_loop throwerror
forth_bodyfrom d =
    let v = record (d.vm) { tos = dec d.vm.tos } in
    let i = body_loop d.wc d v.tos in
    if i == 0
    then record d { vm = throwerror (negsuc 64) v }
    else record d { vm = record v { tos = pos i } }

-- ( wc dp -- ) A header count below 0 is outside the model: `none`.
pub forth_brmarker : Dictionary → Option Dictionary
forth_brmarker d =
    let v = d.vm in
    let sp1 = dec v.sp in
    elim (v.s v.sp) [
      | pos n ↦ some (record d {
        wc = n;
        vm = record v { dp = v.tos; sp = dec sp1; m = update v.m lastxt (pos n); tos = v.s sp1 };
      })
      | negsuc _ ↦ none
    ]

-- The vocabularies.
pub forth_only : Dictionary → Dictionary
forth_only d = record d {
  vm = record (d.vm) { m = update d.vm.m context only };
  vocstack = only ∷ [];
}

pub forth_forth : Dictionary → Dictionary
forth_forth d = set_context forth d

pub forth_hidden : Dictionary → Dictionary
forth_hidden d = set_context hidden d

pub forth_teststuff : Dictionary → Dictionary
forth_teststuff d = set_context teststuff d

pub forth_definitions : Dictionary → Dictionary
forth_definitions d = record d { vm = record (d.vm) { m = update d.vm.m current (d.vm.m context) } }

pub forth_also : Dictionary → Dictionary
forth_also d = record d { vocstack = d.vm.m context ∷ d.vocstack }

-- `none`: an empty stack gives `undefined`.
pub forth_previous : Dictionary → Option Dictionary
forth_previous d = elim d.vocstack [
  | [] ↦ none
  | c ∷ cs ↦ some (record (set_context c d) { vocstack = cs })
]
