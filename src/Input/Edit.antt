-- ===== src/Input/Edit.antt =====
-- The line editor of `accept`.
use post.Prelude.{
  ℤ, pos, ◌+ℤ◌, ◌-ℤ◌, ltb_ℤ, Store, update, update_ne, ℕ, suc, ◌+◌, ◌-◌, ◌≤◌, ◌<◌, some, List, ◌∷◌,
  ◌≡◌, ◌≢◌, ◌⊎◌, inl, inr, refl, sym, arith, ap, ◌∙◌, Bool-cases,
}
use mathlib.Core.Path.{ap₂}
use post.Vm.{Vm, pop, inc, dec}
use post.Stack.View.{stack, stack-pop, stack_at, top_at, under_at, nip_at, retop_at, set_under_at}
use post.Input.{
  Input, bl, forth_acceptprintable, forth_acceptescape, forth_acceptbackspace, forth_acceptreturn,
  forth_accepttab,
}

-- The line that begins at `b`, with the cursor at `e'` and room for `n'` keys, after a key at `e` with
-- room for `n`: one cell is written at most, which is the one at the cursor, and the cursor stays in the
-- line.
pub record IsEdited (m m' : Store) (b e n e' n' : ℕ) : Type 0 where
  pub start : b ≤ e'
  pub total : e' + n' ≡ e + n
  pub room : 1 ≤ n'
  pub typed : (m' (pos e) ≡ m (pos e)) ⊎ (e' ≡ suc e)
  pub kept : (p : ℤ) → p ≢ pos e → m' p ≡ m p

pub Edited : Store → Vm → ℕ → ℕ → ℕ → List ℤ → Type 0
Edited m u b e n xs =
    (e' : ℕ) × (n' : ℕ) × (stack u ≡ some (pos n' ∷ pos e' ∷ pos b ∷ xs))
    × IsEdited m u.m b e n e' n'

pub unchanged :
    (v : Vm) (b e n : ℕ) (xs : List ℤ)
    → b ≤ e
    → 1 ≤ n
    → stack v ≡ some (pos n ∷ pos e ∷ pos b ∷ xs)
    → Edited v.m v b e n xs
unfolding Edited
unchanged v b e n xs le room h = (
  e,
  n,
  h,
  record { start = le; total = refl; room = room; typed = inl refl; kept = λ p q. refl },
)

put_two :
    (t : ℤ) (s : Store) (sp a b x y x' y' : ℤ) (xs : List ℤ)
    → stack_at t s sp ≡ some (a ∷ b ∷ xs)
    → x ≡ x'
    → y ≡ y'
    → stack_at x (update s sp y) sp ≡ some (x' ∷ y' ∷ xs)
put_two t s sp a b x y x' y' xs h p q =
    retop_at t (update s sp y) sp a (y ∷ xs) x (set_under_at t s sp a b xs y h)
    ∙ ap₂ (λ c d. some (c ∷ d ∷ xs)) p q

written : (m : Store) (a c : ℤ) (e : ℕ) (p : ℤ) → a ≡ pos e → p ≢ pos e → update m a c p ≡ m p
written m a c e p at ne = update_ne m a c p (λ z. ne (sym z ∙ at))

-- The item that a handler drops has no part in what it does.
pub dropped_key :
    (v : Vm) (c : ℤ) (b e n : ℕ) (xs : List ℤ)
    → stack v ≡ some (c ∷ pos n ∷ pos e ∷ pos b ∷ xs)
    → (stack (pop v) ≡ some (pos n ∷ pos e ∷ pos b ∷ xs))
      × ((pop v).tos ≡ pos n)
      × ((pop v).s (pop v).sp ≡ pos e)
      × ((pop v).s (dec (pop v).sp) ≡ pos b)
dropped_key v c b e n xs h =
    let u = pop v in
    let h1 = stack-pop v c (pos n ∷ pos e ∷ pos b ∷ xs) h in
    (
      h1,
      top_at u.tos u.s u.sp (pos n) (pos e ∷ pos b ∷ xs) h1,
      under_at u.tos u.s u.sp (pos n) (pos e) (pos b ∷ xs) h1,
      under_at u.tos u.s (dec u.sp) (pos n) (pos b) xs
          (nip_at u.tos u.s u.sp (pos n) (pos e) (pos b ∷ xs) h1),
    )

pub printable :
    (i : Input) (c : ℤ) (b e n : ℕ) (xs : List ℤ)
    → b ≤ e
    → 1 ≤ n
    → stack i.vm ≡ some (c ∷ pos n ∷ pos e ∷ pos b ∷ xs)
    → Edited i.vm.m (forth_acceptprintable i).vm b e n xs
unfolding forth_acceptprintable Edited pop
printable i c b e n xs le room h =
    let v = pop (record (i.vm) { w = i.vm.tos }) in
    let (h1, count, cursor, first) = dropped_key (record (i.vm) { w = i.vm.tos }) c b e n xs h in
    elim (Bool-cases (ltb_ℤ (pos 1) v.tos)) [
      | inr q ↦
          rw (forth_acceptprintable, q)
            (
              e,
              n,
              h1,
              record {
                start = le;
                total = refl;
                room = room;
                typed = inl refl;
                kept = λ p r. refl;
              },
            )
      | inl q ↦
          let more : 1 < n = ground (arith, count) in
          rw (forth_acceptprintable, q)
            (
              suc e,
              n - 1,
              put_two v.tos v.s v.sp (pos n) (pos e) _ _ (pos (n - 1)) (pos (suc e)) (pos b ∷ xs) h1
                  (ap dec count ∙ ground arith) (ap inc cursor ∙ ground arith),
              record {
                start = omega arith;
                total = omega arith;
                room = omega arith;
                typed = inr refl;
                kept = λ p r. written i.vm.m (v.s v.sp) i.vm.tos e p cursor r;
              },
            )
    ]

pub escaped :
    (i : Input) (c : ℤ) (b e n : ℕ) (xs : List ℤ)
    → b ≤ e
    → 1 ≤ n
    → stack i.vm ≡ some (c ∷ pos n ∷ pos e ∷ pos b ∷ xs)
    → Edited i.vm.m (forth_acceptescape i).vm b e n xs
unfolding forth_acceptescape Edited pop
escaped i c b e n xs le room h =
    let v = pop i.vm in
    let (h1, count, cursor, first) = dropped_key i.vm c b e n xs h in
    let typed : v.tos +ℤ (v.s v.sp -ℤ v.s (dec v.sp)) ≡ pos (n + (e - b)) =
      rw (count, cursor, first) (ground arith) in
    (
      b,
      n + (e - b),
      put_two v.tos v.s v.sp (pos n) (pos e) _ _ (pos (n + (e - b))) (pos b) (pos b ∷ xs) h1 typed
          first,
      record {
        start = omega arith;
        total = omega arith;
        room = omega arith;
        typed = inl refl;
        kept = λ p r. refl;
      },
    )

pub backspace :
    (i : Input) (c : ℤ) (b e n : ℕ) (xs : List ℤ)
    → b ≤ e
    → 1 ≤ n
    → stack i.vm ≡ some (c ∷ pos n ∷ pos e ∷ pos b ∷ xs)
    → Edited i.vm.m (forth_acceptbackspace i).vm b e n xs
unfolding forth_acceptbackspace Edited pop
backspace i c b e n xs le room h =
    let v = pop i.vm in
    let (h1, count, cursor, first) = dropped_key i.vm c b e n xs h in
    elim (Bool-cases (ltb_ℤ (v.s (dec v.sp)) (v.s v.sp))) [
      | inr q ↦ rw (forth_acceptbackspace, q) (unchanged v b e n xs le room h1)
      | inl q ↦
          let some_typed : b < e = ground (arith, cursor, first) in
          rw (forth_acceptbackspace, q)
            (
              e - 1,
              suc n,
              put_two v.tos v.s v.sp (pos n) (pos e) _ _ (pos (suc n)) (pos (e - 1)) (pos b ∷ xs) h1
                  (ap inc count ∙ ground arith) (ap dec cursor ∙ ground arith),
              record {
                start = omega arith;
                total = omega arith;
                room = omega arith;
                typed = inl refl;
                kept = λ p r. refl;
              },
            )
    ]

pub returned :
    (i : Input) (c : ℤ) (b e n : ℕ) (xs : List ℤ)
    → stack i.vm ≡ some (c ∷ pos n ∷ pos e ∷ pos b ∷ xs)
    → stack (forth_acceptreturn i).vm ≡ some (pos 0 ∷ pos e ∷ pos b ∷ xs)
unfolding forth_acceptreturn
returned i c b e n xs h =
    retop_at i.vm.tos i.vm.s (dec i.vm.sp) c (pos e ∷ pos b ∷ xs) (pos 0)
      (nip_at i.vm.tos i.vm.s i.vm.sp c (pos n) (pos e ∷ pos b ∷ xs) h)

pub tabbed :
    (i : Input) (c : ℤ) (b e n : ℕ) (xs : List ℤ)
    → b ≤ e
    → 1 ≤ n
    → stack i.vm ≡ some (c ∷ pos n ∷ pos e ∷ pos b ∷ xs)
    → Edited i.vm.m (forth_accepttab i).vm b e n xs
unfolding forth_accepttab
tabbed i c b e n xs le room h =
    printable (record i { vm = record (i.vm) { tos = bl } }) bl b e n xs le room
      (retop_at i.vm.tos i.vm.s i.vm.sp c (pos n ∷ pos e ∷ pos b ∷ xs) bl h)
