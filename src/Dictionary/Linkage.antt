-- ===== src/Dictionary/Linkage.antt =====
-- The functions of reference/jsforth.js that make words for the script, and what the words do when they run.
use post.Prelude.{
  ℤ, pos, ◌<ℤ◌, leb_ℤ, update, update_self, ℕ, suc, ◌==◌, true, false, [], ◌≡◌, refl, ap, ◌∙◌,
  arith,
}
use post.Number.{js_or}
use post.Vm.{Vm, push, inc}
use post.Text.{Text}
use post.Pictured.{comma_checked, dictionaryfull}
use post.Inner.{Bodies, nextprimitive, nexthilevel, nextconstant, nextvariable, dodoes}
use post.Dictionary.{Dictionary, newheader, put_at, smudgebit}

-- What the array `t` holds for a word: the functions `nextprimitive` and so on. A word that `vocabulary`
-- makes, whose linkage is not modelled, has none of these.
pub data WordType : Type 0 where
  primitive_type hilevel_type constant_type variable_type does_type : WordType

-- `t[w]()` for a word of a type.
unfoldable pub code_of : (bodies : Bodies) (t : ℤ → Vm → Vm) → WordType → Vm → Vm
code_of bodies t primitive_type v = nextprimitive bodies v
code_of bodies t hilevel_type v = nexthilevel bodies v
code_of bodies t constant_type v = nextconstant bodies v
code_of bodies t variable_type v = nextvariable bodies v
code_of bodies t does_type v = dodoes bodies t v

-- The dictionary with the array `t`, and the functions in the array `x`, which has addresses too.
pub record Linked : Type 0 where
  pub dictionary : Dictionary
  pub t : ℕ → WordType
  pub function : ℕ → Vm → Vm

unfoldable pub primitive : (name : Text) (code : Vm → Vm) (flags : ℤ) → Linked → Linked
unfolding newheader
primitive name code flags l =
    let made = newheader name (js_or flags smudgebit) l.dictionary in
    record {
      dictionary = made;
      function = put_at l.function made.wc code;
      t = put_at l.t made.wc primitive_type;
    }

unfoldable pub headerless : Dictionary → Dictionary
headerless d = record d { h = put_at d.h d.wc [] }

unfoldable pub constant : (x_doconst : ℤ) → Text → ℤ → Linked → Linked
unfolding newheader comma_checked
constant x_doconst name value l =
    let made = newheader name smudgebit l.dictionary in
    record l {
      dictionary = record made { vm = comma_checked value (comma_checked x_doconst made.vm) };
      t = put_at l.t made.wc constant_type;
    }

unfoldable pub variable : (x_dovar : ℤ) → Text → Linked → Linked
unfolding newheader comma_checked
variable x_dovar name l =
    let made = newheader name smudgebit l.dictionary in
    record l {
      dictionary = record made { vm = comma_checked (pos 0) (comma_checked x_dovar made.vm) };
      t = put_at l.t made.wc variable_type;
    }

unfoldable pub colon : (x_nest : ℤ) → Text → (flags : ℤ) → Linked → Linked
unfolding newheader comma_checked
colon x_nest name flags l =
    let made = newheader name (js_or flags smudgebit) l.dictionary in
    record l {
      dictionary = record made { vm = comma_checked x_nest made.vm };
      t = put_at l.t made.wc hilevel_type;
    }

-- A word that does what the word before it does.
unfoldable pub alias : Text → (flags : ℤ) → Linked → Linked
unfolding newheader
alias name flags l =
    let before = l.dictionary.wc in
    let made = newheader name (js_or flags smudgebit) l.dictionary in
    record {
      dictionary = record made { x = put_at made.x made.wc (made.x before) };
      function = put_at l.function made.wc (l.function before);
      t = put_at l.t made.wc (l.t before);
    }

comma_lem :
    (n : ℤ) (v : Vm)
    → inc v.dp <ℤ dictionaryfull
    → comma_checked n v ≡ record v { m = update v.m v.dp n; dp = inc v.dp }
unfolding comma_checked
comma_lem n v h = let e : leb_ℤ dictionaryfull (inc v.dp) ≡ false = ground arith in rw e refl

second_cell :
    (x n : ℤ) (v : Vm)
    → inc (inc v.dp) <ℤ dictionaryfull
    → (comma_checked n (comma_checked x v)).m (inc v.dp) ≡ n
second_cell x n v room =
    let one = record v { m = update v.m v.dp x; dp = inc v.dp } in
    ap (λ u. (comma_checked n u).m (inc v.dp)) (comma_lem x v (ground arith))
    ∙ ap (λ (u : Vm). u.m (inc v.dp)) (comma_lem n one room)
    ∙ update_self one.m (inc v.dp) n

put_at_self : {A : Type 0} (f : ℕ → A) (i : ℕ) (v : A) → put_at f i v i ≡ v
put_at_self f i v = let e : (i == i) ≡ true = ground arith in rw e refl

module _ (x_doconst x_dovar value : ℤ) (name : Text) (l : Linked) (t : ℤ → Vm → Vm) where
  abbrev pub a_constant : Linked
  a_constant = constant x_doconst name value l

  abbrev pub a_variable : Linked
  a_variable = variable x_dovar name l

  -- Where the dictionary has room for its two cells, a word that `constant` makes, run by its type and its
  -- body in the arrays `t` and `x` while the second cell of its body is as it was made, pushes the
  -- constant's value; a word that `variable` makes pushes the address of its second cell, which holds 0
  -- at first.
  pub constant-pushes :
      (c_bodies v_bodies : Bodies) (c v : Vm)
      → let dp = l.dictionary.vm.dp in
        let made = a_constant.dictionary in
        let other = a_variable.dictionary in
        inc (inc dp) <ℤ dictionaryfull
        → c.w ≡ pos made.wc
        → c_bodies.address (pos made.wc) ≡ made.x made.wc
        → c.m (inc dp) ≡ made.vm.m (inc dp)
        → v.w ≡ pos other.wc
        → v_bodies.address (pos other.wc) ≡ other.x other.wc
        → (code_of c_bodies t (a_constant.t made.wc) c ≡ push value c)
          × (code_of v_bodies t (a_variable.t other.wc) v ≡ push (inc dp) v)
          × (other.vm.m (inc dp) ≡ pos 0)
  unfolding constant variable newheader nextconstant nextvariable code_of
  constant-pushes c_bodies v_bodies c v room c_w c_x same v_w v_x =
      let d = l.dictionary in
      let n = suc d.wc in
      let made = newheader name smudgebit d in
      let body = ap c_bodies.address c_w ∙ c_x ∙ put_at_self d.x n d.vm.dp in
      (
        ap (λ k. code_of c_bodies t k c) (put_at_self l.t n constant_type)
            ∙ ap (λ a. push (c.m (inc a)) c) body
            ∙ ap (λ y. push y c) (same ∙ second_cell x_doconst value made.vm room),
        ap (λ k. code_of v_bodies t k v) (put_at_self l.t n variable_type)
            ∙ ap (λ a. push (inc a) v) (ap v_bodies.address v_w ∙ v_x ∙ put_at_self d.x n d.vm.dp),
        second_cell x_dovar (pos 0) made.vm room,
      )
