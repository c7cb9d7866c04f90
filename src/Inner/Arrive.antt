-- ===== src/Inner/Arrive.antt =====
-- Where runs of the inner interpreter arrive: in a machine of which only `ip` and the view are told.
use post.Prelude.{
  ℤ, pos, ◌==ℤ◌, ◌≤ℤ◌, ◌+ℤ◌, ◌<ℤ◌, Store, if◌then◌else◌, ◌≡◌, refl, ap, ◌∙◌, sym, Bool-cases, inl,
  inr,
}
use post.Vm.{Vm, pop, inc}
use post.Flow.{forth_branch, forth_0branch, forth_brdo, forth_brloop}
use post.Flow.Compile.{Tokens}
use post.Inner.{step}
use post.Inner.Steps.{Steps, done, one_step, Steps-trans}
use post.Inner.Meaning.{view, Effects}

-- The cells of code at the addresses `In`, and a machine that runs.
pub record Holds (In : ℤ → Type 0) (code : Store) (v : Vm) : Type 0 where
  pub running : v.suspended ≡ pos 0
  pub holds : (a : ℤ) → In a → v.m a ≡ code a

-- The compiler left the cells of `code` between the `dp` of `v` and that of `u`.
pub record Within (In : ℤ → Type 0) (code : Store) (v u : Vm) : Type 0 where
  pub inside : (a : ℤ) → v.dp ≤ℤ a → a <ℤ u.dp → In a
  pub same : (a : ℤ) → v.dp ≤ℤ a → a <ℤ u.dp → code a ≡ u.m a

zero_ip : (y : Vm) → (forth_0branch y).ip ≡ (if y.tos ==ℤ pos 0 then y.ip +ℤ y.m y.ip else inc y.ip)
unfolding forth_0branch pop
zero_ip y = elim (Bool-cases (y.tos ==ℤ pos 0)) [ inl e ↦ rw e refl | inr e ↦ rw e refl ]

zero_running : (y : Vm) → (forth_0branch y).suspended ≡ y.suspended
unfolding forth_0branch pop
zero_running y = elim (Bool-cases (y.tos ==ℤ pos 0)) [ inl e ↦ rw e refl | inr e ↦ rw e refl ]

zero_view : (y : Vm) → view (forth_0branch y) ≡ pop (view y)
unfolding forth_0branch pop view
zero_view y = elim (Bool-cases (y.tos ==ℤ pos 0)) [ inl e ↦ rw e refl | inr e ↦ rw e refl ]

-- Only one cell counts for a branch.
zero_moved :
    (y : Vm) (M : Store) (c target next : ℤ)
    → ((y : Vm)
        → y.m ≡ M
        → y.ip ≡ inc c
        → (forth_0branch y).ip ≡ (if y.tos ==ℤ pos 0 then target else next))
    → y.ip ≡ inc c
    → y.m y.ip ≡ M (inc c)
    → (forth_0branch y).ip ≡ (if y.tos ==ℤ pos 0 then target else next)
zero_moved y M c target next f p q =
    zero_ip y
    ∙ ap (λ n. if y.tos ==ℤ pos 0 then y.ip +ℤ n else inc y.ip) (q ∙ sym (ap M p))
    ∙ sym (zero_ip (record y { m = M }))
    ∙ f (record y { m = M }) refl p

branch_moved :
    (y : Vm) (M : Store) (c target : ℤ)
    → ((y : Vm) → y.m ≡ M → y.ip ≡ inc c → (forth_branch y).ip ≡ target)
    → y.ip ≡ inc c
    → y.m y.ip ≡ M (inc c)
    → (forth_branch y).ip ≡ target
unfolding forth_branch
branch_moved y M c target f p q =
    ap (λ n. y.ip +ℤ n) (q ∙ sym (ap M p)) ∙ f (record y { m = M }) refl p

module _ (t : ℤ → Vm → Vm) where
  -- A run from `v` to `a`, where the view of the machine is `z`.
  pub record Arrives (v z : Vm) (a : ℤ) : Type 0 where
    pub end : Vm
    pub steps : Steps t v end
    pub seen : view end ≡ z
    pub place : end.ip ≡ a

  module _ (In : ℤ → Type 0) (code : Store) where
    -- The run keeps the code, and the machine still runs.
    pub record Result (v z : Vm) (a : ℤ) : Type 0 where
      pub arrives : Arrives v z a
      pub good : Holds In code z

    -- The branches are what the tokens stand for, and the words have the effects that are told of
    -- them, while the code stands in memory.
    pub record Realises (x : Tokens) (effects : Effects) : Type 0 where
      pub zero_branch : (v : Vm) → t x.x_0branch v ≡ forth_0branch v
      pub branch : (v : Vm) → t x.x_branch v ≡ forth_branch v
      pub enter : (v : Vm) → t x.x_brdo v ≡ forth_brdo v
      pub count : (v : Vm) → t x.x_brloop v ≡ forth_brloop v
      pub plain :
          (i : ℤ) (z z' v : Vm)
          → effects.plain i z z'
          → Holds In code z
          → view v ≡ z
          → v.m v.ip ≡ i
          → Result v z' (inc v.ip)
      pub operand :
          (i n : ℤ) (z z' v : Vm)
          → effects.operand i n z z'
          → Holds In code z
          → view v ≡ z
          → v.m v.ip ≡ i
          → v.m (inc v.ip) ≡ n
          → Result v z' (inc (inc v.ip))

    pub here : (v z : Vm) (a : ℤ) → view v ≡ z → v.ip ≡ a → Holds In code z → Result v z a
    here v z a e p h = record {
      arrives = record { end = v; steps = done; seen = e; place = p };
      good = h;
    }

    -- A run, and what is run from where it arrives.
    pub chain :
        (v z1 z2 : Vm) (a b : ℤ)
        → Result v z1 a
        → ((u : Vm) → view u ≡ z1 → u.ip ≡ a → Holds In code z1 → Result u z2 b)
        → Result v z2 b
    chain v z1 z2 a b r f =
        let first = r.arrives in
        let second = f first.end first.seen first.place r.good in
        record {
          arrives = record {
            end = second.arrives.end;
            steps = Steps-trans t first.steps second.arrives.steps;
            seen = second.arrives.seen;
            place = second.arrives.place;
          };
          good = second.good;
        }

    -- The code in the memory of a machine whose view is known.
    pub cell : (v z : Vm) (a n : ℤ) → view v ≡ z → Holds In code z → In a → code a ≡ n → v.m a ≡ n
    unfolding view
    cell v z a n e h i c = ap (λ (u : Vm). u.m a) e ∙ h.holds a i ∙ c

    pub still : (v z : Vm) → view v ≡ z → Holds In code z → v.suspended ≡ pos 0
    unfolding view
    still v z e h = ap (λ (u : Vm). u.suspended) e ∙ h.running

    pub pop_good : (z : Vm) → Holds In code z → Holds In code (pop z)
    unfolding pop
    pop_good z h = record { running = h.running; holds = h.holds }

    module _ (x : Tokens) (effects : Effects) (law : Realises x effects) where
      zero_step :
          (v : Vm)
          → v.m v.ip ≡ x.x_0branch
          → step t v ≡ forth_0branch (record v { w = x.x_0branch; ip = inc v.ip })
      unfolding step
      zero_step v o = ap (λ i. t i (record v { w = i; ip = inc v.ip })) o ∙ law.zero_branch _

      -- `(0branch)` at `c`, between whose targets the code `M` decides.
      pub zero_branch-Result :
          (v z : Vm) (M : Store) (c target next : ℤ)
          → ((y : Vm)
              → y.m ≡ M
              → y.ip ≡ inc c
              → (forth_0branch y).ip ≡ (if y.tos ==ℤ pos 0 then target else next))
          → view v ≡ z
          → v.ip ≡ c
          → Holds In code z
          → In c
          → code c ≡ x.x_0branch
          → In (inc c)
          → code (inc c) ≡ M (inc c)
          → Result v (pop z) (if z.tos ==ℤ pos 0 then target else next)
      unfolding view
      zero_branch-Result v z M c target next f e p h i o i' q =
          let s = zero_step v (ap v.m p ∙ cell v z c _ e h i o) in
          let y = record v { w = x.x_0branch; ip = inc v.ip } in
          let there = ap (λ a. v.m (inc a)) p ∙ cell v z (inc c) _ e h i' q in
          record {
            arrives = record {
              end = step t v;
              steps =
                  one_step t v (ap (λ (u : Vm). u.suspended) s ∙ zero_running y ∙ still v z e h);
              seen = ap view s ∙ zero_view y ∙ ap pop e;
              place =
                  ap (λ (u : Vm). u.ip) s
                  ∙ zero_moved y M c target next f (ap inc p) there
                  ∙ ap (λ (u : Vm). if u.tos ==ℤ pos 0 then target else next) e;
            };
            good = pop_good z h;
          }

      branch_step :
          (v : Vm)
          → v.m v.ip ≡ x.x_branch
          → step t v ≡ forth_branch (record v { w = x.x_branch; ip = inc v.ip })
      unfolding step
      branch_step v o = ap (λ i. t i (record v { w = i; ip = inc v.ip })) o ∙ law.branch _

      pub branch-Result :
          (v z : Vm) (M : Store) (c target : ℤ)
          → ((y : Vm) → y.m ≡ M → y.ip ≡ inc c → (forth_branch y).ip ≡ target)
          → view v ≡ z
          → v.ip ≡ c
          → Holds In code z
          → In c
          → code c ≡ x.x_branch
          → In (inc c)
          → code (inc c) ≡ M (inc c)
          → Result v z target
      unfolding view forth_branch
      branch-Result v z M c target f e p h i o i' q =
          let s = branch_step v (ap v.m p ∙ cell v z c _ e h i o) in
          let y = record v { w = x.x_branch; ip = inc v.ip } in
          let there = ap (λ a. v.m (inc a)) p ∙ cell v z (inc c) _ e h i' q in
          record {
            arrives = record {
              end = step t v;
              steps = one_step t v (ap (λ (u : Vm). u.suspended) s ∙ still v z e h);
              seen = ap view s ∙ e;
              place = ap (λ (u : Vm). u.ip) s ∙ branch_moved y M c target f (ap inc p) there;
            };
            good = h;
          }
