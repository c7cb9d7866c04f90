-- ===== src/Inner/Primitive.antt =====
-- What the inner interpreter does with a primitive, and with a literal.
use post.Prelude.{ℤ, pos, Store, ◌≡◌, ap, ◌∙◌}
use post.Vm.{Vm, push, inc}
use post.Flow.{forth_dolit}
use post.Inner.{step}
use post.Inner.Steps.{one_step}
use post.Inner.Meaning.{view}
use post.Inner.Arrive.{Holds, Result}

-- The code of a primitive that leaves the memory and the flow of control alone.
pub record Primitive (f : Vm → Vm) : Type 0 where
  pub sees : (y : Vm) → view (f y) ≡ f (view y)
  pub place : (y : Vm) → (f y).ip ≡ y.ip
  pub code : (y : Vm) → (f y).m ≡ y.m
  pub runs : (y : Vm) → (f y).suspended ≡ y.suspended

module _ (t : ℤ → Vm → Vm) (In : ℤ → Type 0) (code : Store) (i : ℤ) where
  pub Primitive-Result :
      (f : Vm → Vm)
      → Primitive f
      → ((y : Vm) → t i y ≡ f y)
      → (v z : Vm) → Holds In code z
      → view v ≡ z
      → v.m v.ip ≡ i
      → Result t In code v (f z) (inc v.ip)
  unfolding step view
  Primitive-Result f prim law v z h e p =
      let y = record v { w = i; ip = inc v.ip } in
      let s : step t v ≡ f y = ap (λ j. t j (record v { w = j; ip = inc v.ip })) p ∙ law y in
      let running : v.suspended ≡ pos 0 = ap (λ (u : Vm). u.suspended) e ∙ h.running in
      record {
        arrives = record {
          end = step t v;
          steps = one_step t v (ap (λ (u : Vm). u.suspended) s ∙ prim.runs y ∙ running);
          seen = ap view s ∙ prim.sees y ∙ ap f e;
          place = ap (λ (u : Vm). u.ip) s ∙ prim.place y;
        };
        good = record {
          running = prim.runs z ∙ h.running;
          holds = λ a q. ap (λ (m : Store). m a) (prim.code z) ∙ h.holds a q;
        };
      }

  pub literal-Result :
      ((y : Vm) → t i y ≡ forth_dolit y)
      → (v z : Vm) (n : ℤ) → Holds In code z
      → view v ≡ z
      → v.m v.ip ≡ i
      → v.m (inc v.ip) ≡ n
      → Result t In code v (push n z) (inc (inc v.ip))
  unfolding step view forth_dolit push
  literal-Result law v z n h e p q =
      let y = record v { w = i; ip = inc v.ip } in
      let s : step t v ≡ forth_dolit y =
        ap (λ j. t j (record v { w = j; ip = inc v.ip })) p ∙ law y in
      let running : v.suspended ≡ pos 0 = ap (λ (u : Vm). u.suspended) e ∙ h.running in
      record {
        arrives = record {
          end = step t v;
          steps = one_step t v (ap (λ (u : Vm). u.suspended) s ∙ running);
          seen = ap view s ∙ ap (λ k. push k (view v)) q ∙ ap (push n) e;
          place = ap (λ (u : Vm). u.ip) s;
        };
        good = record { running = h.running; holds = h.holds };
      }
