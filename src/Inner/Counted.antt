-- ===== src/Inner/Counted.antt =====
-- The cells of `DO ... LOOP`, and where its words go.
use post.Prelude.{
  ℤ, pos, ◌+ℤ◌, ◌-ℤ◌, ◌≤ℤ◌, ◌<ℤ◌, Store, update_ne, if◌then◌else◌, ◌≡◌, refl, arith, ap, ◌∙◌, sym,
  ==ℤ_iff, ==ℤ-ne,
}
use mathlib.Core.Path.{subst}
use post.Vm.{Vm, push, pop, rpush, inc}
use post.Flow.{forth_brdo, forth_brloop}
use post.Flow.Compile.{Tokens, comma, innerloop, make_do, compile_loop}
use post.Flow.Structure.{Balanced}
use post.Flow.Nested.{loop_memory, loop_cells, loop_forward}
use post.Inner.{step}
use post.Inner.Steps.{one_step}
use post.Inner.Meaning.{view, Effects, entered, bumped, left, AtLimit}
use post.Inner.Arrive.{Holds, Result, Realises, cell, still}

module _ (x : Tokens) (xt : ℤ) (v u : Vm) (above : innerloop <ℤ v.dp)
    (h : Balanced (make_do x xt v) u) where
  -- A cell of the loop is none of the variable's, and its own.
  loop_cell : (a : ℤ) → v.dp ≤ℤ a → (compile_loop x u).m a ≡ loop_cells x xt v u above h a
  loop_cell a p =
      ap (λ (m : Store). m a) (loop_memory x xt v u above h)
      ∙ update_ne (loop_cells x xt v u above h) innerloop (v.m innerloop) a
          (λ e. absurd (ground arith))

  do_code : u.m v.dp ≡ xt
  unfolding make_do comma
  do_code = h.code v.dp (ground arith) ∙ ground arith

  do_size : inc (inc v.dp) ≤ℤ u.dp
  do_size = loop_forward x xt v u above h

  pub do_opcode : (compile_loop x u).m v.dp ≡ xt
  do_opcode = let s = do_size in let c = do_code in loop_cell v.dp (ground arith) ∙ ground arith

  pub do_body : (a : ℤ) → inc (inc v.dp) ≤ℤ a → a <ℤ u.dp → (compile_loop x u).m a ≡ u.m a
  do_body a p q = loop_cell a (ground arith) ∙ ground arith

  pub loop_opcode : (compile_loop x u).m u.dp ≡ x.x_brloop
  loop_opcode = let s = do_size in loop_cell u.dp (ground arith) ∙ ground arith

  pub loop_distance : (compile_loop x u).m (inc u.dp) ≡ inc v.dp +ℤ pos 2 -ℤ inc (inc u.dp)
  loop_distance = let s = do_size in loop_cell (inc u.dp) (ground arith) ∙ ground arith

loop_end :
    (y : Vm) → AtLimit (bumped y) → forth_brloop y ≡ record (left (bumped y)) { ip = inc y.ip }
unfolding forth_brloop
loop_end y e =
    let test = (==ℤ_iff ((bumped y).r y.rp) ((bumped y).r (y.rp -ℤ pos 1))).1 e in
    ap
      (λ b.
        if b
        then record (left (bumped y)) { ip = inc y.ip }
        else record (bumped y) { ip = y.ip +ℤ y.m y.ip })
      test

loop_again :
    (y : Vm) → ¬ AtLimit (bumped y) → forth_brloop y ≡ record (bumped y) { ip = y.ip +ℤ y.m y.ip }
unfolding forth_brloop
loop_again y e =
    let test = ==ℤ-ne ((bumped y).r y.rp) ((bumped y).r (y.rp -ℤ pos 1)) e in
    ap
      (λ b.
        if b
        then record (left (bumped y)) { ip = inc y.ip }
        else record (bumped y) { ip = y.ip +ℤ y.m y.ip })
      test

module _ (t : ℤ → Vm → Vm) (In : ℤ → Type 0) (code : Store) (x : Tokens) (effects : Effects)
    (law : Realises t In code x effects) where
  -- A word of the structures, which `f` stands for.
  word_step :
      (f : Vm → Vm) (token c : ℤ)
      → ((y : Vm) → t token y ≡ f y)
      → (y z : Vm) → view y ≡ z
      → y.ip ≡ c
      → Holds In code z
      → In c
      → code c ≡ token
      → step t y ≡ f (record y { w = token; ip = inc y.ip })
  unfolding step
  word_step f token c same y z e p h i o =
      ap (λ j. t j (record y { w = j; ip = inc y.ip }))
        (ap y.m p ∙ cell t In code y z c token e h i o)
      ∙ same (record y { w = token; ip = inc y.ip })

  pub enter-Result :
      (c : ℤ) (y z : Vm)
      → view y ≡ z
      → y.ip ≡ c
      → Holds In code z
      → In c
      → code c ≡ x.x_brdo
      → Result t In code y (entered z) (inc (inc c))
  unfolding view forth_brdo push pop rpush entered
  enter-Result c y z e p h i o =
      let s = word_step forth_brdo x.x_brdo c law.enter y z e p h i o in
      record {
        arrives = record {
          end = step t y;
          steps = one_step t y (ap (λ (u : Vm). u.suspended) s ∙ still t In code y z e h);
          seen = ap view s ∙ ap entered e;
          place = ap (λ (u : Vm). u.ip) s ∙ ap (λ a. inc (inc a)) p;
        };
        good = record { running = h.running; holds = h.holds };
      }

  pub loop_end-Result :
      (c : ℤ) (y z : Vm)
      → view y ≡ z
      → y.ip ≡ c
      → Holds In code z
      → In c
      → code c ≡ x.x_brloop
      → AtLimit (bumped z)
      → Result t In code y (left (bumped z)) (inc (inc c))
  unfolding view
  loop_end-Result c y z e p h i o l =
      let y' = record y { w = x.x_brloop; ip = inc y.ip } in
      let l' : AtLimit (bumped y) = subst (λ (u : Vm). AtLimit (bumped u)) (sym e) l in
      let s = word_step forth_brloop x.x_brloop c law.count y z e p h i o ∙ loop_end y' l' in
      record {
        arrives = record {
          end = step t y;
          steps = one_step t y (ap (λ (u : Vm). u.suspended) s ∙ still t In code y z e h);
          seen = ap view s ∙ ap (λ u. left (bumped u)) e;
          place = ap (λ (u : Vm). u.ip) s ∙ ap (λ a. inc (inc a)) p;
        };
        good = record { running = h.running; holds = h.holds };
      }

  pub loop_again-Result :
      (c target : ℤ) (y z : Vm)
      → view y ≡ z
      → y.ip ≡ c
      → Holds In code z
      → In c
      → code c ≡ x.x_brloop
      → In (inc c)
      → inc c +ℤ code (inc c) ≡ target
      → ¬ AtLimit (bumped z)
      → Result t In code y (bumped z) target
  unfolding view
  loop_again-Result c target y z e p h i o i' q l =
      let y' = record y { w = x.x_brloop; ip = inc y.ip } in
      let l' : ¬ AtLimit (bumped y) = λ n. l (subst (λ (u : Vm). AtLimit (bumped u)) e n) in
      let s = word_step forth_brloop x.x_brloop c law.count y z e p h i o ∙ loop_again y' l' in
      let there = ap (λ a. y.m (inc a)) p ∙ cell t In code y z (inc c) _ e h i' refl in
      record {
        arrives = record {
          end = step t y;
          steps = one_step t y (ap (λ (u : Vm). u.suspended) s ∙ still t In code y z e h);
          seen = ap view s ∙ ap bumped e;
          place =
              ap (λ (u : Vm). u.ip) s
              ∙ ap (λ a. inc a +ℤ y.m (inc y.ip)) p
              ∙ ap (λ n. inc c +ℤ n) there
              ∙ q;
        };
        good = record { running = h.running; holds = h.holds };
      }

pub back : (a b : ℤ) → inc b +ℤ (inc a +ℤ pos 2 -ℤ inc (inc b)) ≡ inc (inc a)
back a b = ground arith
