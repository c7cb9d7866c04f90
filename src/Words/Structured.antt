-- ===== src/Words/Structured.antt =====
-- Definitions whose control structures are closed.
use post.Prelude.{length, Bool, true, false, ℕ, zero, suc, List, [], ◌∷◌, ◌≡◌}
use post.Words.{
  Cell, Item, compile, op_if, op_else, op_then, op_begin, op_until, op_while, op_repeat, op_again,
  op_do, op_qdo, op_loop, op_leave,
}

-- The calls begin with closed structures, which `rest` follows.
pub data Structured : List Item → List Item → Type 0 where
  nothing : {rest : List Item} → Structured rest rest
  cells :
      {is rest : List Item} (cs : List Cell)
      → Structured is rest
      → Structured (compile cs ∷ is) rest
  leaving : {is rest : List Item} → Structured is rest → Structured (op_leave ∷ is) rest
  if_then :
      {is after rest : List Item}
      → Structured is (op_then ∷ after)
      → Structured after rest
      → Structured (op_if ∷ is) rest
  if_else_then :
      {is others after rest : List Item}
      → Structured is (op_else ∷ others)
      → Structured others (op_then ∷ after)
      → Structured after rest
      → Structured (op_if ∷ is) rest
  begin_until :
      {is after rest : List Item}
      → Structured is (op_until ∷ after)
      → Structured after rest
      → Structured (op_begin ∷ is) rest
  begin_again :
      {is after rest : List Item}
      → Structured is (op_again ∷ after)
      → Structured after rest
      → Structured (op_begin ∷ is) rest
  begin_while_repeat :
      {is others after rest : List Item}
      → Structured is (op_while ∷ others)
      → Structured others (op_repeat ∷ after)
      → Structured after rest
      → Structured (op_begin ∷ is) rest
  do_loop :
      {is after rest : List Item}
      → Structured is (op_loop ∷ after)
      → Structured after rest
      → Structured (op_do ∷ is) rest
  qdo_loop :
      {is after rest : List Item}
      → Structured is (op_loop ∷ after)
      → Structured after rest
      → Structured (op_qdo ∷ is) rest

-- The calls of the closed structures, and those that are left.
abbrev pub Split : List Item → Type 0
Split is = (rest : List Item) × Structured is rest

-- The structure that a call begins, behind the structures `d` that it contains.
module _ (next : (is : List Item) → Split is) where
  unfoldable pub split_else :
      (is others rest : List Item)
      → Structured is (op_else ∷ others)
      → Structured others rest
      → Split (op_if ∷ is)
  split_else is others (op_then ∷ after) d e =
      let (rest, f) = next after in (rest, if_else_then d e f)
  split_else is others rest d e = (op_if ∷ is, nothing)

  unfoldable pub split_if : (is rest : List Item) → Structured is rest → Split (op_if ∷ is)
  unfolding split_else
  split_if is (op_then ∷ after) d = let (rest, e) = next after in (rest, if_then d e)
  split_if is (op_else ∷ others) d = let (rest, e) = next others in split_else is others rest d e
  split_if is rest d = (op_if ∷ is, nothing)

  unfoldable pub split_while :
      (is others rest : List Item)
      → Structured is (op_while ∷ others)
      → Structured others rest
      → Split (op_begin ∷ is)
  split_while is others (op_repeat ∷ after) d e =
      let (rest, f) = next after in (rest, begin_while_repeat d e f)
  split_while is others rest d e = (op_begin ∷ is, nothing)

  unfoldable pub split_begin : (is rest : List Item) → Structured is rest → Split (op_begin ∷ is)
  unfolding split_while
  split_begin is (op_until ∷ after) d = let (rest, e) = next after in (rest, begin_until d e)
  split_begin is (op_again ∷ after) d = let (rest, e) = next after in (rest, begin_again d e)
  split_begin is (op_while ∷ others) d =
      let (rest, e) = next others in split_while is others rest d e
  split_begin is rest d = (op_begin ∷ is, nothing)

  unfoldable pub split_do : (is rest : List Item) → Structured is rest → Split (op_do ∷ is)
  split_do is (op_loop ∷ after) d = let (rest, e) = next after in (rest, do_loop d e)
  split_do is rest d = (op_do ∷ is, nothing)

  unfoldable pub split_qdo : (is rest : List Item) → Structured is rest → Split (op_qdo ∷ is)
  split_qdo is (op_loop ∷ after) d = let (rest, e) = next after in (rest, qdo_loop d e)
  split_qdo is rest d = (op_qdo ∷ is, nothing)

-- Splits off closed structures, with the number of calls as fuel.
unfoldable pub split : ℕ → (is : List Item) → Split is
unfolding split_if split_begin split_do split_qdo
split zero is = (is, nothing)
split (suc n) [] = ([], nothing)
split (suc n) (compile cs ∷ is) = let (rest, d) = split n is in (rest, cells cs d)
split (suc n) (op_leave ∷ is) = let (rest, d) = split n is in (rest, leaving d)
split (suc n) (op_if ∷ is) = let (rest, d) = split n is in split_if (split n) is rest d
split (suc n) (op_begin ∷ is) = let (rest, d) = split n is in split_begin (split n) is rest d
split (suc n) (op_do ∷ is) = let (rest, d) = split n is in split_do (split n) is rest d
split (suc n) (op_qdo ∷ is) = let (rest, d) = split n is in split_qdo (split n) is rest d
split (suc n) (i ∷ is) = (i ∷ is, nothing)

abbrev pub is_nil : List Item → Bool
is_nil [] = true
is_nil (i ∷ is) = false

-- All calls are split off.
unfoldable pub closed : List Item → Bool
unfolding split
closed is = is_nil (split (length is) is).0

pub closed-Structured : (is : List Item) → closed is ≡ true → Structured is []
unfolding closed
closed-Structured is h = go (split (length is) is) h
  where
    go : (s : Split is) → is_nil s.0 ≡ true → Structured is []
    go ([], d) e = d
    go (i ∷ rest, d) e = absurd (cc)
