-- ===== src/Inner/Meaning.antt =====
-- What structured code means, without addresses and without the inner interpreter.
use post.Prelude.{ℤ, pos, ◌-ℤ◌, update, List, [], ◌∷◌, ◌≡◌, ◌≢◌}
use post.Number.{js_add}
use post.Vm.{Vm, pop}
use post.Flow.{forth_brdo}
use post.Flow.Compile.{Tokens}
use post.Words.{
  Token, Cell, Item, token, cell_value, op_else, op_then, op_until, op_while, op_repeat, op_loop,
}
use post.Words.Structured.{
  Structured, nothing, cells, if_then, if_else_then, begin_until, begin_while_repeat, do_loop,
}

-- A machine without its registers `ip` and `w`.
unfoldable pub view : Vm → Vm
view v = record v { ip = pos 0; w = pos 0 }

-- `(do)` takes the limit and the index from the stack.
unfoldable pub entered : Vm → Vm
unfolding view forth_brdo
entered z = view (forth_brdo z)

-- `(loop)` counts, and drops the limit and the index in the end.
abbrev pub bumped : Vm → Vm
bumped z = record z { r = update z.r z.rp (js_add (z.r z.rp) (pos 1)) }

abbrev pub left : Vm → Vm
left z = record z { rp = z.rp -ℤ pos 2 }

abbrev pub AtLimit : Vm → Type 0
AtLimit z = z.r z.rp ≡ z.r (z.rp -ℤ pos 1)

-- What words do to such a machine: those that stand for themselves, and those that take the cell
-- that follows them in the code.
pub record Effects : Type 1 where
  pub plain : ℤ → Vm → Vm → Type 0
  pub operand : ℤ → ℤ → Vm → Vm → Type 0

module _ (xt : Token → ℤ) (x : Tokens) (effects : Effects) where
  -- The words that one call of `compile` stores, one after the other.
  pub data Straight : List Cell → Vm → Vm → Type 0 where
    end : {z : Vm} → Straight [] z z
    word :
        {t : Token} {cs : List Cell} {z z1 z2 : Vm}
        → effects.plain (xt t) z z1
        → Straight cs z1 z2
        → Straight (token t ∷ cs) z z2
    word_with :
        {t : Token} {c : Cell} {cs : List Cell} {z z1 z2 : Vm}
        → effects.operand (xt t) (cell_value xt x c) z z1
        → Straight cs z1 z2
        → Straight (token t ∷ c ∷ cs) z z2

  -- The structures `d`, started in `z`, end in `z'`. A loop that does not end has no derivation;
  -- nor have `?DO ... LOOP` and code that leaves a loop.
  mutual
    pub data Means : (is rest : List Item) → Structured is rest → Vm → Vm → Type 0 where
      ends : {is : List Item} {z : Vm} → Means _ _ (nothing {rest = is}) z z
      does :
          {is rest : List Item} {cs : List Cell} {d : Structured is rest} {z z1 z2 : Vm}
          → Straight cs z z1
          → Means _ _ d z1 z2
          → Means _ _ (cells cs d) z z2
      taken :
          {is after rest : List Item} {d : Structured is (op_then ∷ after)}
          {e : Structured after rest} {z z1 z2 : Vm}
          → z.tos ≢ pos 0
          → Means _ _ d (pop z) z1
          → Means _ _ e z1 z2
          → Means _ _ (if_then d e) z z2
      skipped :
          {is after rest : List Item} {d : Structured is (op_then ∷ after)}
          {e : Structured after rest} {z z2 : Vm}
          → z.tos ≡ pos 0
          → Means _ _ e (pop z) z2
          → Means _ _ (if_then d e) z z2
      first :
          {is others after rest : List Item} {d : Structured is (op_else ∷ others)}
          {f : Structured others (op_then ∷ after)} {e : Structured after rest} {z z1 z2 : Vm}
          → z.tos ≢ pos 0
          → Means _ _ d (pop z) z1
          → Means _ _ e z1 z2
          → Means _ _ (if_else_then d f e) z z2
      second :
          {is others after rest : List Item} {d : Structured is (op_else ∷ others)}
          {f : Structured others (op_then ∷ after)} {e : Structured after rest} {z z1 z2 : Vm}
          → z.tos ≡ pos 0
          → Means _ _ f (pop z) z1
          → Means _ _ e z1 z2
          → Means _ _ (if_else_then d f e) z z2
      until_done :
          {is after rest : List Item} {d : Structured is (op_until ∷ after)}
          {e : Structured after rest} {z z1 z2 : Vm}
          → Means _ _ d z z1
          → z1.tos ≢ pos 0
          → Means _ _ e (pop z1) z2
          → Means _ _ (begin_until d e) z z2
      until_again :
          {is after rest : List Item} {d : Structured is (op_until ∷ after)}
          {e : Structured after rest} {z z1 z2 : Vm}
          → Means _ _ d z z1
          → z1.tos ≡ pos 0
          → Means _ _ (begin_until d e) (pop z1) z2
          → Means _ _ (begin_until d e) z z2
      while_done :
          {is others after rest : List Item} {d : Structured is (op_while ∷ others)}
          {f : Structured others (op_repeat ∷ after)} {e : Structured after rest} {z z1 z2 : Vm}
          → Means _ _ d z z1
          → z1.tos ≡ pos 0
          → Means _ _ e (pop z1) z2
          → Means _ _ (begin_while_repeat d f e) z z2
      while_again :
          {is others after rest : List Item} {d : Structured is (op_while ∷ others)}
          {f : Structured others (op_repeat ∷ after)} {e : Structured after rest} {z z1 z2 z3 : Vm}
          → Means _ _ d z z1
          → z1.tos ≢ pos 0
          → Means _ _ f (pop z1) z2
          → Means _ _ (begin_while_repeat d f e) z2 z3
          → Means _ _ (begin_while_repeat d f e) z z3
      counted :
          {is after rest : List Item} {d : Structured is (op_loop ∷ after)}
          {e : Structured after rest} {z z1 z2 : Vm}
          → Rounds is (op_loop ∷ after) d (entered z) z1
          → Means _ _ e z1 z2
          → Means _ _ (do_loop d e) z z2

    -- The rounds of a counted loop, from a machine that has the limit and the index on its return stack.
    pub data Rounds : (is rest : List Item) → Structured is rest → Vm → Vm → Type 0 where
      last_round :
          {is rest : List Item} {d : Structured is rest} {z z1 : Vm}
          → Means is rest d z z1
          → AtLimit (bumped z1)
          → Rounds is rest d z (left (bumped z1))
      next_round :
          {is rest : List Item} {d : Structured is rest} {z z1 z2 : Vm}
          → Means is rest d z z1
          → ¬ AtLimit (bumped z1)
          → Rounds is rest d (bumped z1) z2
          → Rounds is rest d z z2
