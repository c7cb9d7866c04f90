-- ===== src/Inner/Runs.antt =====
-- Structured code means what the inner interpreter does with the cells compiled for it.
use post.Prelude.{ℤ, pos, Store, List, if◌then◌else◌, ◌≡◌, ◌≢◌, ap, ◌∙◌, ==ℤ_iff, ==ℤ-ne}
use mathlib.Core.Path.{subst}
use post.Vm.{Vm, pop, inc}
use post.Flow.Compile.{Tokens, comma}
use post.Flow.Structure.{Balanced, comma-Balanced}
use post.Flow.Nested.{Balanced-trans}
use post.Words.{Token, Cell, Item, cell_value, compile_cells}
use post.Words.Structured.{Structured}
use post.Words.Balance.{Above, cells-Balanced, reached}
use post.Inner.Meaning.{view, Effects, Straight, end, word, word_with}
use post.Inner.Arrive.{Holds, Within, Result, Realises, here, chain, cell}
use post.Inner.Structures.{Within-tail, first_cell, TestsAt}

module _ (t : ℤ → Vm → Vm) (In : ℤ → Type 0) (code : Store) (xt : Token → ℤ) (x : Tokens)
    (effects : Effects) (law : Realises t In code x effects) where
  -- Started at `a` in a machine with the view `z`, the machine arrives at `b` with the view `z'`.
  abbrev pub Runs : (a b : ℤ) (z z' : Vm) → Type 0
  Runs a b z z' = (y : Vm) → view y ≡ z → y.ip ≡ a → Holds In code z → Result t In code y z' b

  pub both : (a b c : ℤ) (z z1 z2 : Vm) → Runs a b z z1 → Runs b c z1 z2 → Runs a c z z2
  both a b c z z1 z2 f g y e p h = chain t In code y z1 z2 b c (f y e p h) g

  -- A test decides by the top of the stack.
  pub on_zero :
      (a onward over : ℤ) (z : Vm)
      → TestsAt In code t x effects law a onward over
      → z.tos ≡ pos 0
      → Runs a over z (pop z)
  on_zero a onward over z f p y e q h =
      subst (Result t In code y (pop z))
        (ap (λ b. if b then over else onward) ((==ℤ_iff z.tos (pos 0)).1 p)) (f y z e q h)

  pub on_other :
      (a onward over : ℤ) (z : Vm)
      → TestsAt In code t x effects law a onward over
      → z.tos ≢ pos 0
      → Runs a onward z (pop z)
  on_other a onward over z f p y e q h =
      subst (Result t In code y (pop z))
        (ap (λ b. if b then over else onward) (==ℤ-ne z.tos (pos 0) p)) (f y z e q h)

  -- The cells compiled for the structures `d` do what takes `z` to `z'`.
  abbrev pub Realised : (is rest : List Item) (d : Structured is rest) (z z' : Vm) → Type 0
  Realised is rest d z z' =
      (v : Vm)
      → Above v
      → Within In code v (reached xt x d v)
      → Runs v.dp (reached xt x d v).dp z z'

  plain_word :
      (n : ℤ) (v u z z1 : Vm)
      → Balanced (comma n v) u
      → Within In code v u
      → effects.plain n z z1
      → Runs v.dp (inc v.dp) z z1
  plain_word n v u z z1 b w r y e p h =
      let (i, c) = first_cell In code n v u b w in
      let read : y.m y.ip ≡ n = ap y.m p ∙ cell t In code y z v.dp n e h i c in
      subst (λ a. Result t In code y z1 (inc a)) p (law.plain n z z1 y r h e read)

  word_and_cell :
      (n k : ℤ) (v u z z1 : Vm)
      → Balanced (comma k (comma n v)) u
      → Within In code v u
      → effects.operand n k z z1
      → Runs v.dp (inc (inc v.dp)) z z1
  unfolding comma
  word_and_cell n k v u z z1 b w r y e p h =
      let v1 = comma n v in
      let whole = Balanced-trans v1 (comma k v1) u (comma-Balanced k v1) b in
      let (i, c) = first_cell In code n v u whole w in
      let rest = Within-tail In code v v1 u (comma-Balanced n v) w in
      let (j, d) = first_cell In code k v1 u b rest in
      let read : y.m y.ip ≡ n = ap y.m p ∙ cell t In code y z v.dp n e h i c in
      let operand : y.m (inc y.ip) ≡ k =
        ap (λ a. y.m (inc a)) p ∙ cell t In code y z (inc v.dp) k e h j d in
      subst (λ a. Result t In code y z1 (inc (inc a))) p (law.operand n k z z1 y r h e read operand)

  pub Straight-Runs :
      {cs : List Cell} {z z' : Vm}
      → Straight xt x effects cs z z'
      → (v : Vm) → Within In code v (compile_cells xt x cs v)
      → Runs v.dp (compile_cells xt x cs v).dp z z'
  unfolding compile_cells comma
  Straight-Runs end v w = λ y e p h. here t In code y _ v.dp e p h
  Straight-Runs (word {t = a} {cs} {z} {z1} {z2} r q) v w =
      let v1 = comma (xt a) v in
      let u = compile_cells xt x cs v1 in
      both v.dp v1.dp u.dp z z1 z2 (plain_word (xt a) v u z z1 (cells-Balanced xt x cs v1) w r)
        (Straight-Runs q v1 (Within-tail In code v v1 u (comma-Balanced (xt a) v) w))
  Straight-Runs (word_with {t = a} {c} {cs} {z} {z1} {z2} r q) v w =
      let k = cell_value xt x c in
      let v1 = comma (xt a) v in
      let v2 = comma k v1 in
      let u = compile_cells xt x cs v2 in
      let opened = Balanced-trans v v1 v2 (comma-Balanced (xt a) v) (comma-Balanced k v1) in
      both v.dp v2.dp u.dp z z1 z2 (word_and_cell (xt a) k v u z z1 (cells-Balanced xt x cs v2) w r)
        (Straight-Runs q v2 (Within-tail In code v v2 u opened w))
