-- ===== src/Input/Parse.antt =====
-- What `parse` finds in the source.
use post.Prelude.{
  ℤ, pos, ◌+ℤ◌, ◌-ℤ◌, update, ℕ, ◌+◌, ◌-◌, ◌≤◌, some, List, ◌∷◌, ◌≡◌, arith, ap, ◌∙◌,
}
use post.Vm.{push, inc}
use post.Stack.View.{stack, stack-push, top_at, retop_at, stack_at}
use post.Input.Delimited.{pos_add, IsSkipped, IsSkipped-cells, IsText, IsText-cells}
use post.Input.{Input, forth_parse, cells_to, toin}

text_len : (w len : ℕ) → pos (w + len) -ℤ pos w ≡ pos len
text_len w len = ground arith

past_text :
    (a k first len past : ℕ)
    → pos (a + k + first + len + past) -ℤ pos a ≡ pos (k + first + len + past)
past_text a k first len past = ground arith

-- The stack and the memory that `parse` leaves, for the cells that its loops pass.
pub Parsed : Input → ℕ → ℕ → ℕ → ℕ → ℕ → List ℤ → Type 0
Parsed u a k first len past xs =
    (stack u.vm ≡ some (pos len ∷ pos (a + k + first) ∷ xs))
    × (u.vm.m toin ≡ pos (k + first + len + past))

-- `parse` from `k` on in a source of `n` characters at `a`: it skips blanks before the text if the
-- delimiter is the blank, leaves the address and the length of a text in the source without the
-- delimiter, ended by the delimiter or by the source's end, and moves `>in` behind the text, and behind
-- the delimiter that ends it. `>in` stays at the source's end where that ends the text; but where the code
-- comes to the end before the text begins, it goes one further if the cell behind the source holds the delimiter.
pub parse-IsText :
    (i : Input) (c : ℤ) (xs : List ℤ) (a k n : ℕ)
    → stack i.vm ≡ some (c ∷ xs)
    → i.vm.m toin ≡ pos k
    → i.parsebuf ≡ pos a
    → i.parsebuflen ≡ pos n
    → k ≤ n
    → (first : ℕ) × (len : ℕ) × (past : ℕ) × IsSkipped i.vm.m c (a + k) (n - k) first
      × IsText i.vm.m c (a + k + first) (n - k - first) len past
      × Parsed (forth_parse i) a k first len past xs
unfolding forth_parse Parsed push
parse-IsText i c xs a k n h at base size le =
    let tos : i.vm.tos ≡ c = top_at i.vm.tos i.vm.s i.vm.sp c xs h in
    let start : i.vm.m toin +ℤ i.parsebuf ≡ pos (a + k) = rw (at, base) (ground arith) in
    let end : i.parsebuf +ℤ i.parsebuflen ≡ pos (a + n) = rw (base, size) (pos_add a n) in
    let cells : cells_to (pos (a + k)) (pos (a + n)) ≡ n - k = ground arith in
    let (first, w1, skipped) = IsSkipped-cells (n - k) i.vm.m c (a + k) in
    let cells1 : cells_to (pos (a + k + first)) (pos (a + n)) ≡ n - k - first = ground arith in
    let (len, past, w2, w3, text) = IsText-cells (n - k - first) i.vm.m c (a + k + first) in
    let w = a + k + first in
    let pushed =
      stack-push (record (i.vm) { tos = pos w }) (pos len) (pos w ∷ xs)
        (retop_at i.vm.tos i.vm.s i.vm.sp c xs (pos w) h) in
    (
      first,
      len,
      past,
      skipped,
      text,
      rw (forth_parse, tos, start, end, cells, w1, cells1, w3, w2)
          (
            ap (λ z. stack_at z (update i.vm.s (inc i.vm.sp) (pos w)) (inc i.vm.sp))
                  (text_len w len)
                ∙ pushed,
            ap (λ b. pos (w + len + past) -ℤ b) base ∙ past_text a k first len past,
          ),
    )
