-- ===== src/Flow/Count.antt =====
-- How many rounds a `(do)` ... `(loop)` makes.
use post.Prelude.{
  ℤ, pos, ◌+ℤ◌, ◌-ℤ◌, ◌==ℤ◌, ◌≤ℤ◌, ◌≤◌, ℕ, zero, suc, ◌<◌, List, some, ◌∷◌, update, ◌≡◌, ◌≢◌, refl,
  arith, ap, ◌∙◌, sym, update_self, update_ne, inc-dec, true, false, if◌then◌else◌, ==ℤ-ne, ==ℤ_iff,
}
use mathlib.Core.Path.{ap₂, subst}
use post.Number.{js_add}
use post.Number.Round.{js_add-small}
use post.Vm.{Vm, pop, rpush, inc, dec}
use post.Arith.Laws.{IsCell}
use post.Flow.{forth_brdo, forth_brloop, jump, leave_loop}
use post.Stack.View.{stack, top_at, under_at}

-- The body of a loop ran from `u`, at the address `from`, to `b`, at the address `end` of the cell
-- after `(loop)`, which leads back to `from`; it left the return stack as it was.
pub record RunsBody (from end : ℤ) (u b : Vm) : Type 0 where
  pub left_from : u.ip ≡ from
  pub arrived : b.ip ≡ end
  pub back : end +ℤ b.m end ≡ from
  pub level : b.rp ≡ u.rp
  pub kept : (j : ℤ) → j ≤ℤ u.rp → b.r j ≡ u.r j

drop_two : (i : ℤ) → inc (inc i) -ℤ pos 2 ≡ i
drop_two i = ground arith

ne_dec : (i : ℤ) → i ≢ dec i
ne_dec i e = absurd (ground arith)

-- `n` rounds, each a run of the body and `(loop)`.
pub data Rounds (from end : ℤ) (v : Vm) : ℕ → Vm → Type 0 where
  none_yet : Rounds from end v zero v
  one_more :
      (n : ℕ) (u b : Vm)
      → Rounds from end v n u
      → RunsBody from end u b
      → Rounds from end v (suc n) (forth_brloop b)

-- Within the loop that was entered at `v`.
pub record InLoop (from : ℤ) (v : Vm) (limit index : ℤ) (u : Vm) : Type 0 where
  pub place : u.ip ≡ from
  pub level : u.rp ≡ inc (inc v.rp)
  pub index_cell : u.r (inc (inc v.rp)) ≡ index
  pub limit_cell : u.r (inc v.rp) ≡ limit
  pub older : (j : ℤ) → j ≤ℤ v.rp → u.r j ≡ v.r j

-- After the loop.
pub record PastLoop (end : ℤ) (v u : Vm) : Type 0 where
  pub place : u.ip ≡ inc end
  pub level : u.rp ≡ v.rp
  pub older : (j : ℤ) → j ≤ℤ v.rp → u.r j ≡ v.r j

module _ (from end : ℤ) (v : Vm) (limit index : ℤ) (u b : Vm) (k : InLoop from v limit index u)
    (h : RunsBody from end u b) where
  abbrev counted : Vm
  counted = record b { r = update b.r b.rp (js_add (b.r b.rp) (pos 1)) }

  at_level : b.rp ≡ inc (inc v.rp)
  at_level = h.level ∙ k.level

  index_read : b.r b.rp ≡ index
  index_read =
      let l = k.level in
      h.kept b.rp (let e = h.level in ground arith) ∙ ap u.r at_level ∙ k.index_cell

  limit_read : b.r (inc v.rp) ≡ limit
  limit_read = h.kept (inc v.rp) (let l = k.level in ground arith) ∙ k.limit_cell

  older_read : (j : ℤ) → j ≤ℤ v.rp → b.r j ≡ v.r j
  older_read j p = h.kept j (let l = k.level in ground arith) ∙ k.older j p

  module _ (exact : js_add index (pos 1) ≡ inc index) where
    next_index : counted.r counted.rp ≡ inc index
    next_index =
        update_self b.r b.rp (js_add (b.r b.rp) (pos 1))
        ∙ ap (λ i. js_add i (pos 1)) index_read
        ∙ exact

    same_limit : counted.r (dec counted.rp) ≡ limit
    same_limit =
        update_ne b.r b.rp (js_add (b.r b.rp) (pos 1)) (dec b.rp) (ne_dec b.rp)
        ∙ ap (λ j. b.r (dec j)) at_level
        ∙ ap b.r (inc-dec (inc v.rp))
        ∙ limit_read

    older_counted : (j : ℤ) → j ≤ℤ v.rp → counted.r j ≡ v.r j
    older_counted j p =
        update_ne b.r b.rp (js_add (b.r b.rp) (pos 1)) j (let l = at_level in ground arith)
        ∙ older_read j p

    limit_counted : counted.r (inc v.rp) ≡ limit
    limit_counted =
        update_ne b.r b.rp (js_add (b.r b.rp) (pos 1)) (inc v.rp) (let l = at_level in ground arith)
        ∙ limit_read

    brloop-InLoop : inc index ≢ limit → InLoop from v limit (inc index) (forth_brloop b)
    unfolding forth_brloop
    brloop-InLoop more =
        let test : (counted.r counted.rp ==ℤ counted.r (dec counted.rp)) ≡ false =
          ap₂ ◌==ℤ◌ next_index same_limit ∙ ==ℤ-ne (inc index) limit more in
        let jumped : forth_brloop b ≡ jump counted =
          ap (λ c. if c then leave_loop counted else jump counted) test in
        rw jumped (record {
          place = ap (λ a. a +ℤ b.m a) h.arrived ∙ h.back;
          level = at_level;
          index_cell = ap counted.r (sym at_level) ∙ next_index;
          limit_cell = limit_counted;
          older = older_counted;
        })

    brloop-PastLoop : inc index ≡ limit → PastLoop end v (forth_brloop b)
    unfolding forth_brloop
    brloop-PastLoop done =
        let test : (counted.r counted.rp ==ℤ counted.r (dec counted.rp)) ≡ true =
          ap₂ ◌==ℤ◌ (next_index ∙ done) same_limit ∙ (==ℤ_iff limit limit).1 refl in
        let passed : forth_brloop b ≡ leave_loop counted =
          ap (λ c. if c then leave_loop counted else jump counted) test in
        rw passed (record {
          place = ap inc h.arrived;
          level = ap (λ l. l -ℤ pos 2) at_level ∙ drop_two v.rp;
          older = older_counted;
        })

-- Below the limit, 1 is added exactly.
counts_on :
    (start limit : ℤ) (n k : ℕ)
    → IsCell start
    → IsCell limit
    → limit ≡ start +ℤ pos (suc n)
    → k ≤ n
    → js_add (start +ℤ pos k) (pos 1) ≡ inc (start +ℤ pos k)
counts_on start limit n k c d size p =
    let a = c.at_least in
    let b = d.below_top in js_add-small (start +ℤ pos k) (pos 1) (ground arith)

one_on : (start : ℤ) (k : ℕ) → inc (start +ℤ pos k) ≡ start +ℤ pos (suc k)
one_on start k = ground arith

short_of : (start : ℤ) (k n : ℕ) → k < n → start +ℤ pos k ≢ start +ℤ pos n
short_of start k n p e = absurd (ground arith)

module _ (from end : ℤ) (v : Vm) (start limit : ℤ) (n : ℕ) (xs : List ℤ) where
  brdo-InLoop :
      stack v ≡ some (start ∷ limit ∷ xs)
      → inc v.ip ≡ from
      → InLoop from v limit start (forth_brdo v)
  unfolding forth_brdo pop rpush
  brdo-InLoop h at_from = record {
    place = at_from;
    level = refl;
    index_cell =
        update_self (update v.r (inc v.rp) (v.s v.sp)) (inc (inc v.rp)) v.tos
        ∙ top_at v.tos v.s v.sp start (limit ∷ xs) h;
    limit_cell = (let t = under_at v.tos v.s v.sp start limit xs h in ground arith);
    older = λ j p. ground arith;
  }

  module _ (c : IsCell start) (d : IsCell limit) (size : limit ≡ start +ℤ pos (suc n))
      (h : stack v ≡ some (start ∷ limit ∷ xs)) (at_from : inc v.ip ≡ from) where
    Rounds-InLoop :
        (k : ℕ) (u : Vm)
        → k ≤ n
        → Rounds from end (forth_brdo v) k u
        → InLoop from v limit (start +ℤ pos k) u
    Rounds-InLoop zero u p none_yet =
        let z : start ≡ start +ℤ pos 0 = ground arith in rw (← z) (brdo-InLoop h at_from)
    Rounds-InLoop (suc k) u p (one_more _ t b before run) =
        let within = Rounds-InLoop k t (omega arith) before in
        let short : inc (start +ℤ pos k) ≢ limit =
          λ e. short_of start (suc k) (suc n) (omega arith) (sym (one_on start k) ∙ e ∙ size) in
        subst (λ i. InLoop from v limit i (forth_brloop b)) (one_on start k)
          (brloop-InLoop from end v limit (start +ℤ pos k) t b within run
            (counts_on start limit n k c d size (omega arith)) short)

    -- For 32-bit cells with the limit above the start, the loop that `(do)` enters makes as many rounds
    -- as the limit is above the start: after fewer rounds the machine is back at the start of the body,
    -- and the index on the return stack has gone up by the number of rounds; after that many, it is past
    -- the loop with the return stack as it was.
    pub do-loop-Rounds :
        ((k : ℕ) (u : Vm)
          → k ≤ n
          → Rounds from end (forth_brdo v) k u
          → InLoop from v limit (start +ℤ pos k) u)
        × ((u : Vm) → Rounds from end (forth_brdo v) (suc n) u → PastLoop end v u)
    do-loop-Rounds = (Rounds-InLoop, λ u all. past u all)
      where
        past : (u : Vm) → Rounds from end (forth_brdo v) (suc n) u → PastLoop end v u
        past u (one_more _ t b before run) =
            brloop-PastLoop from end v limit (start +ℤ pos n) t b
              (Rounds-InLoop n t (omega arith) before) run
              (counts_on start limit n n c d size (omega arith)) (one_on start n ∙ sym size)
