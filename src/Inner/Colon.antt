-- ===== src/Inner/Colon.antt =====
-- The inner interpreter on a call of a word that is compiled by `colon`.
use post.Prelude.{ℤ, ◌≤ℤ◌, ◌<ℤ◌, [], true, ◌≡◌, refl, ap, ◌∙◌, sym}
use mathlib.Core.Path.{subst}
use post.Vm.{Vm, rpush, inc, dec}
use post.Throw.{forth_nest, forth_unnest}
use post.Pictured.{dictionaryfull}
use post.Flow.Compile.{Tokens, innerloop, comma}
use post.Flow.Structure.{Balanced, comma-Balanced}
use post.Flow.Nested.{Balanced-refl, Balanced-trans}
use post.Words.{Token, Colon, compile_items, compile_colon, x_nest, x_unnest}
use post.Words.Structured.{Structured}
use post.Words.Balance.{
  compile_colon-entry, Above-next, reached, reached-Balanced, compile_items-reached,
}
use post.Inner.{step, Bodies, nexthilevel}
use post.Inner.Steps.{Steps, Steps-trans, one_step}
use post.Inner.Meaning.{view, Effects, Means}
use post.Inner.Arrive.{Holds, Within, Arrives, Realises}
use post.Inner.Structures.{Within-head, Within-tail, first_cell}
use post.Inner.Refine.{Means-Realised}

-- The cells of a word's body.
abbrev pub Body : (xt : Token → ℤ) (x : Tokens) (w : Colon) (v : Vm) → ℤ → Type 0
Body xt x w v a = (v.dp ≤ℤ a) × (a <ℤ (compile_colon xt x w v).dp)

-- The code of the nesting words, where the word `i` has its body at `b`.
pub record Nesting (t : ℤ → Vm → Vm) (xt : Token → ℤ) (bodies : Bodies) (i b : ℤ) : Type 0 where
  pub linkage : (s : Vm) → t i s ≡ nexthilevel bodies s
  pub body : bodies.address i ≡ b
  pub nest : (s : Vm) → bodies.function (xt x_nest) s ≡ forth_nest s
  pub unnest : (s : Vm) → t (xt x_unnest) s ≡ forth_unnest s

module _ (t : ℤ → Vm → Vm) (xt : Token → ℤ) (x : Tokens) (effects : Effects) (bodies : Bodies)
    (w : Colon) (d : Structured w.items []) (v : Vm) (i : ℤ) (nesting : Nesting t xt bodies i v.dp)
    (returns : w.returns ≡ true) (above : innerloop <ℤ v.dp) (room : inc v.dp <ℤ dictionaryfull)
    (law : Realises t (Body xt x w v) (compile_colon xt x w v).m x effects) where
  abbrev entry : Vm
  entry = comma (xt x_nest) v

  abbrev body_end : Vm
  body_end = reached xt x d entry

  compiled : compile_colon xt x w v ≡ comma (xt x_unnest) body_end
  unfolding compile_items
  compiled =
      compile_colon-entry xt x w v room
      ∙ rw returns (ap (comma (xt x_unnest)) (compile_items-reached xt x d entry))

  enter :
      (y : Vm)
      → y.m y.ip ≡ i
      → y.m v.dp ≡ xt x_nest
      → step t y ≡ forth_nest (record y { w = v.dp; ip = inc y.ip })
  unfolding step nexthilevel
  enter y p q =
      ap (λ a. t a (record y { w = a; ip = inc y.ip })) p
      ∙ nesting.linkage (record y { w = i; ip = inc y.ip })
      ∙ ap (λ a. bodies.function (y.m a) (record y { w = a; ip = inc y.ip })) nesting.body
      ∙ ap (λ a. bodies.function a (record y { w = v.dp; ip = inc y.ip })) q
      ∙ nesting.nest (record y { w = v.dp; ip = inc y.ip })

  leave :
      (y : Vm)
      → y.m y.ip ≡ xt x_unnest
      → step t y ≡ forth_unnest (record y { w = xt x_unnest; ip = inc y.ip })
  unfolding step
  leave y p = ap (λ a. t a (record y { w = a; ip = inc y.ip })) p ∙ nesting.unnest _

  abbrev In : ℤ → Type 0
  In = Body xt x w v

  begun : Balanced v entry
  begun = comma-Balanced (xt x_nest) v

  inside : Balanced entry body_end
  inside = reached-Balanced xt x d entry (Above-next v entry begun above)

  finished : Balanced body_end (comma (xt x_unnest) body_end)
  finished = comma-Balanced (xt x_unnest) body_end

  all-Within : Within In (compile_colon xt x w v).m v (comma (xt x_unnest) body_end)
  all-Within =
      subst (Within In (compile_colon xt x w v).m v) compiled
        (record { inside = λ a p q. (p, q); same = λ a p q. refl })

  rest-Within : Within In (compile_colon xt x w v).m entry (comma (xt x_unnest) body_end)
  rest-Within = Within-tail In _ v entry (comma (xt x_unnest) body_end) begun all-Within

  nest_cell : In v.dp × ((compile_colon xt x w v).m v.dp ≡ xt x_nest)
  nest_cell =
      let u = comma (xt x_unnest) body_end in
      first_cell In (compile_colon xt x w v).m (xt x_nest) v u
        (Balanced-trans entry body_end u inside finished) all-Within

  unnest_cell : In body_end.dp × ((compile_colon xt x w v).m body_end.dp ≡ xt x_unnest)
  unnest_cell =
      let u = comma (xt x_unnest) body_end in
      first_cell In (compile_colon xt x w v).m (xt x_unnest) body_end u (Balanced-refl u)
        (Within-tail In _ entry body_end u inside rest-Within)

  -- A call of a word compiled by `colon`, whose control structures `d` are closed, above the cell of
  -- `innerloop` and where the dictionary has room for its first cell. Its body stands in memory, the machine runs, and the words in it have the effects that are told of them and leave
  -- the body alone. If the structures' meaning takes the machine that the call nests, with the
  -- return address on the return stack, to `z'`, then running the call arrives at the address on top of
  -- the return stack of `z'`, which is dropped; all else is as in `z'`.
  pub call-Arrives :
      (y z' : Vm)
      → y.m y.ip ≡ i
      → Holds In (compile_colon xt x w v).m (view y)
      → Means xt x effects w.items [] d (view (rpush (inc y.ip) y)) z'
      → Arrives t y (record z' { rp = dec z'.rp }) (z'.r z'.rp)
  unfolding view rpush forth_nest forth_unnest comma
  call-Arrives y z' p h q =
      let code = (compile_colon xt x w v).m in
      let nested = enter y p (h.holds v.dp nest_cell.0 ∙ nest_cell.1) in
      let y1 = forth_nest (record y { w = v.dp; ip = inc y.ip }) in
      let u = comma (xt x_unnest) body_end in
      let good : Holds In code (view y1) = record { running = h.running; holds = h.holds } in
      let r =
        Means-Realised t In code xt x effects law q entry (Above-next v entry begun above)
          (Within-head In code entry body_end u finished rest-Within) y1 refl refl good in
      let e = r.arrives.end in
      let token : e.m e.ip ≡ xt x_unnest =
        ap e.m r.arrives.place
        ∙ ap (λ (s : Vm). s.m body_end.dp) r.arrives.seen
        ∙ r.good.holds body_end.dp unnest_cell.0
        ∙ unnest_cell.1 in
      let left = leave e token in
      let first = one_step t y (ap (λ (s : Vm). s.suspended) nested ∙ h.running) in
      let last = one_step t e (
        ap (λ (s : Vm). s.suspended) left
        ∙ ap (λ (s : Vm). s.suspended) r.arrives.seen
        ∙ r.good.running) in
      record {
        end = step t e;
        steps =
            Steps-trans t first
              (Steps-trans t (subst (λ s. Steps t s e) (sym nested) r.arrives.steps) last);
        seen = ap view left ∙ ap (λ (s : Vm). record s { rp = dec s.rp }) r.arrives.seen;
        place = ap (λ (s : Vm). s.ip) left ∙ ap (λ (s : Vm). s.r s.rp) r.arrives.seen;
      }
