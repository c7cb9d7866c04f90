-- ===== src/Dictionary.antt =====
-- The dictionary of reference/jsforth.js: headers, their search by vocabularies and standards, and the words
-- that change a header. A header is known by its number, which is the word's execution token.
pub mod Header
mod Search
mod Order
pub mod Define
mod Found
pub mod Linkage
mod Tests
use post.Prelude.{
  ℤ, pos, negsuc, ◌+ℤ◌, ◌-ℤ◌, ◌*ℤ◌, ◌==ℤ◌, ltb_ℤ, leb_ℤ, update, ℕ, zero, suc, ◌+◌, Bool, true,
  false, not, ◌&&◌, ◌==◌, if◌then◌else◌, Option, none, some, List, [], ◌∷◌,
}
use post.Number.{js_and, js_or, js_add, negate, magnitude}
use post.Vm.{Vm, push, pop, inc, dec}
use post.Text.{Text, pack}
use post.Throw.{throwerror}
use post.Input.{toin, bl}

-- Addresses of the script's variables.
abbrev pub casesensitive : ℤ
casesensitive = pos 0

abbrev pub compliance : ℤ
compliance = pos 4

abbrev pub blk : ℤ
blk = pos 7

abbrev pub context : ℤ
context = pos 9

abbrev pub current : ℤ
current = pos 10

abbrev pub lastxt : ℤ
lastxt = pos 11

abbrev pub state : ℤ
state = pos 13

-- The bits of a header's flags, and the masks of the standards and vocabularies.
abbrev pub precedencebit : ℤ
precedencebit = pos 1

abbrev pub smudgebit : ℤ
smudgebit = pos 2

abbrev pub any : ℤ
any = pos 0b1011110

abbrev pub foerthchen : ℤ
foerthchen = pos 0b100000

abbrev pub only : ℤ
only = pos 128

abbrev pub forth : ℤ
forth = pos 256

abbrev pub hidden : ℤ
hidden = pos 512

abbrev pub teststuff : ℤ
teststuff = pos 1024

-- The machine with the arrays of the headers. `vocstack` has the vocabulary pushed last first.
pub record Dictionary : Type 0 where
  pub vm : Vm
  pub wc : ℕ
  pub h : ℕ → Text
  pub src : ℕ → ℤ
  pub hf : ℕ → ℤ
  pub x : ℕ → ℤ
  pub ds : ℕ → ℤ
  pub dse : ℕ → Text
  pub vocstack : List ℤ
  pub primitives : ℕ

-- `a[i] = v`
abbrev pub put_at : {A : Type 0} → (ℕ → A) → ℕ → A → ℕ → A
put_at f i v j = if i == j then v else f j

pub from : Vm → ℤ
from v =
    if not (v.suspended ==ℤ pos 0)
    then negsuc 1
    else if leb_ℤ (pos 0) (v.m blk)
    then v.m blk *ℤ pos 1024 +ℤ v.m toin
    else negsuc 0

unfoldable pub newheader : Text → ℤ → Dictionary → Dictionary
unfolding from
newheader name flags d =
    let n = suc d.wc in
    let v = d.vm in
    record d {
      wc = n;
      h = put_at d.h n name;
      src = put_at d.src n (from v);
      hf = put_at d.hf n flags;
      x = put_at d.x n v.dp;
      vm = record v { m = update v.m lastxt (pos n) };
      ds = put_at d.ds n (js_or (js_or any foerthchen) (v.m current));
      dse = put_at d.dse n [];
    }

-- `a & b`, as a test
abbrev pub share_bit : ℤ → ℤ → Bool
share_bit a b = not (js_and a b ==ℤ pos 0)

abbrev pub same_text : Text → Text → Bool
same_text [] [] = true
same_text [] (c ∷ cs) = false
same_text (c ∷ cs) [] = false
same_text (c ∷ cs) (e ∷ es) = let rest = same_text cs es in if c == e then rest else false

-- An empty string is no header.
abbrev pub is_header : Text → Bool
is_header [] = false
is_header (c ∷ cs) = true

-- `m[context] = vocabulary`
abbrev pub set_context : ℤ → Dictionary → Dictionary
set_context c d = record d { vm = record (d.vm) { m = update d.vm.m context c } }

-- `toLowerCase` is JavaScript's.
module _ (to_lower_case : Text → Text) where
  -- What the tests of the loop of `forthsearch1` say of header `i`.
  abbrev pub is_found : Dictionary → Text → ℕ → Bool
  is_found d name i =
      let m = d.vm.m in
      let w = d.h i in
      let w' = if m casesensitive ==ℤ pos 0 then to_lower_case w else w in
      is_header w
      && (share_bit (m context) (d.ds i)
          && (share_bit (d.hf i) smudgebit
              && (same_text w' name && share_bit (m compliance) (d.ds i))))

  unfoldable search_loop : ℕ → Dictionary → Text → ℕ
  search_loop zero d name = zero
  search_loop (suc i) d name =
      let rest = search_loop i d name in if is_found d name (suc i) then suc i else rest

  -- The header of the name, or 0. The register `w`, which the loop leaves holding a name, is left out.
  unfoldable pub forth_search1 : Text → Dictionary → ℕ
  unfolding search_loop
  forth_search1 name d = search_loop d.wc d name

  -- The loop of `forthsearch` over the vocabulary stack: the header found, or 0. The context changes as it
  -- goes.
  search_stack : List ℤ → Text → Dictionary → ℕ
  unfolding forth_search1
  search_stack [] name d = zero
  search_stack (c ∷ cs) name d =
      let d1 = set_context c d in
      let found = if d.vm.m context ==ℤ c then zero else forth_search1 name d1 in
      let rest = search_stack cs name (if d.vm.m context ==ℤ c then d else d1) in
      if found == 0 then rest else found

  unfoldable pub search_all : Text → Dictionary → ℕ
  unfolding forth_search1 search_stack
  search_all name d =
      let found = forth_search1 name d in
      let rest = search_stack d.vocstack name d in if found == 0 then rest else found

  -- The name of `n` characters; a negative count never ends.
  unfoldable pub forth_search : Dictionary → Option Dictionary
  unfolding search_all
  forth_search d =
      let v = d.vm in
      elim v.tos [
        | negsuc _ ↦ none
        | pos n ↦
            let packed = pack v.m (v.s v.sp) n in
            let name = if v.m casesensitive ==ℤ pos 0 then to_lower_case packed else packed in
            some (record d { vm = record v { sp = dec v.sp; tos = pos (search_all name d) } })
      ]
