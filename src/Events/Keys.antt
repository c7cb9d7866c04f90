-- ===== src/Events/Keys.antt =====
-- The keys that are pressed reach the code that reads them.
use post.Prelude.{
  ℤ, pos, ◌==ℤ◌, ℕ, suc, if◌then◌else◌, Option, none, some, List, [], ◌∷◌, ◌++◌, ◌≡◌, ◌≢◌, refl, ap,
  ◌∙◌, sym, ==ℤ_iff, ==ℤ-ne,
}
use post.Vm.{push, inc}
use post.Stack.View.{stack, stack-push}
use post.Input.{Input, forth_key1, forth_key2}
use post.Events.{run_keys, virtualmachine_keys, key_event}

-- The handler, for each of the keys.
abbrev pub presses :
    (t : ℤ → Input → Option Input) (fuel : ℕ) (x_key1 : ℤ) → List ℤ → Input → Option Input
presses t fuel x_key1 [] i = some i
presses t fuel x_key1 (k ∷ ks) i = elim (key_event t fuel x_key1 k i) [
  | none ↦ none
  | some j ↦ presses t fuel x_key1 ks j
]

-- The cells of `key`, so many times, and once more.
unfoldable pub KeyCode : (m : ℤ → ℤ) (x_key1 x_key2 a : ℤ) → List ℤ → Type 0
KeyCode m x_key1 x_key2 a [] = (m a ≡ x_key1) × (m (inc a) ≡ x_key2)
KeyCode m x_key1 x_key2 a (k ∷ ks) =
    (m a ≡ x_key1) × (m (inc a) ≡ x_key2) × KeyCode m x_key1 x_key2 (inc (inc a)) ks

-- Where the code goes on behind it.
abbrev pub behind : ℤ → List ℤ → ℤ
behind a [] = inc (inc a)
behind a (k ∷ ks) = behind (inc (inc a)) ks

-- The words that run: two for a key that is read, and one that waits.
abbrev pub words : List ℤ → ℕ
words [] = 1
words (k ∷ ks) = suc (suc (words ks))

-- The keys on the stack, the last one on top.
abbrev pub onto : List ℤ → List ℤ → List ℤ
onto [] xs = xs
onto (k ∷ ks) xs = onto ks (k ∷ xs)

append_nil : (xs : List ℤ) → xs ++ [] ≡ xs
append_nil [] = refl
append_nil (x ∷ xs) = ap (λ ys. x ∷ ys) (append_nil xs)

append_one : (xs : List ℤ) (k : ℤ) (ks : List ℤ) → (xs ++ k ∷ []) ++ ks ≡ xs ++ k ∷ ks
append_one [] k ks = refl
append_one (x ∷ xs) k ks = ap (λ ys. x ∷ ys) (append_one xs k ks)

-- The machine as `t` finds it.
abbrev fetched : Input → ℤ → Input
fetched i x = record i { vm = record (i.vm) { w = x; ip = inc i.vm.ip } }

module _ (t : ℤ → Input → Option Input) (x_key1 x_key2 : ℤ) (x_key1-ne : x_key1 ≢ pos 0)
    (key1 : (i : Input) → t x_key1 i ≡ some (forth_key1 i))
    (key2 : (i : Input) → t x_key2 i ≡ forth_key2 i) where
  -- Keys that the machine does not wait for are queued.
  queued :
      (fuel : ℕ) (ks : List ℤ) (i : Input)
      → i.vm.suspended ≢ x_key1
      → presses t fuel x_key1 ks i ≡ some (record i { inbuf = i.inbuf ++ ks })
  unfolding key_event
  queued fuel [] i h = ap (λ xs. some (record i { inbuf = xs })) (sym (append_nil i.inbuf))
  queued fuel (k ∷ ks) i h =
      let later = record i { inbuf = i.inbuf ++ k ∷ [] } in
      ap
        (λ b.
          elim (if b then virtualmachine_keys t fuel i.vm.ip later else some later)
            as (λ y. Option Input) [ none ↦ none | some j ↦ presses t fuel x_key1 ks j ])
        (==ℤ-ne i.vm.suspended x_key1 h)
      ∙ queued fuel ks later h
      ∙ ap (λ xs. some (record i { inbuf = xs })) (append_one i.inbuf k ks)

  -- What `run` makes of what a word does.
  abbrev next : ℕ → Option Input → Option Input
  next fuel none = none
  next fuel (some j) = if j.vm.suspended ==ℤ pos 0 then run_keys t fuel j else some j

  runs :
      (fuel : ℕ) (i : Input) (x : ℤ) (j : Input)
      → i.vm.m i.vm.ip ≡ x
      → t x (fetched i x) ≡ some j
      → run_keys t (suc fuel) i ≡ next fuel (some j)
  unfolding run_keys
  runs fuel i x j p h = ap (λ a. next fuel (t a (fetched i a))) p ∙ ap (next fuel) h

  goes_on : (fuel : ℕ) (j : Input) → j.vm.suspended ≡ pos 0 → next fuel (some j) ≡ run_keys t fuel j
  goes_on fuel j s = ap (λ a. if a ==ℤ pos 0 then run_keys t fuel j else some j) s

  -- The machine behind `key2`.
  abbrev taken : Input → ℤ → List ℤ → Input
  taken i k ks = record i {
    vm = push k (record (i.vm) { w = x_key2; ip = inc i.vm.ip });
    inbuf = ks;
  }

  key2_reads :
      (fuel : ℕ) (i : Input) (k : ℤ) (ks : List ℤ)
      → i.vm.suspended ≡ pos 0
      → i.inbuf ≡ k ∷ ks
      → i.vm.m i.vm.ip ≡ x_key2
      → run_keys t (suc fuel) i ≡ run_keys t fuel (taken i k ks)
  unfolding forth_key2 push
  key2_reads fuel i k ks s e p =
      let j = fetched i x_key2 in
      let read : t x_key2 j ≡ some (taken i k ks) =
        key2 j
        ∙ ap
            (λ (ys : List ℤ). elim ys as (λ z. Option Input) [
              | [] ↦ none
              | y ∷ zs ↦ some (record j { vm = push y j.vm; inbuf = zs })
            ])
            e in
      runs fuel i x_key2 (taken i k ks) p read ∙ goes_on fuel (taken i k ks) s

  key1_passes :
      (fuel : ℕ) (i : Input) (k : ℤ) (ks : List ℤ)
      → i.vm.suspended ≡ pos 0
      → i.inbuf ≡ k ∷ ks
      → i.vm.m i.vm.ip ≡ x_key1
      → run_keys t (suc fuel) i ≡ run_keys t fuel (fetched i x_key1)
  unfolding forth_key1
  key1_passes fuel i k ks s e p =
      let j = fetched i x_key1 in
      let stopped = record j { vm = record (j.vm) { suspended = x_key1 } } in
      let read : t x_key1 j ≡ some j =
        key1 j
        ∙ ap (λ (ys : List ℤ). some (elim ys as (λ z. Input) [ [] ↦ stopped | y ∷ zs ↦ j ])) e in
      runs fuel i x_key1 j p read ∙ goes_on fuel j s

  -- The machine that waits behind `key1`.
  abbrev stopped : Input → Input
  stopped i = record i { vm = record (i.vm) { w = x_key1; ip = inc i.vm.ip; suspended = x_key1 } }

  key1_waits :
      (i : Input) → i.inbuf ≡ [] → i.vm.m i.vm.ip ≡ x_key1 → run_keys t 1 i ≡ some (stopped i)
  unfolding forth_key1
  key1_waits i e p =
      let j = fetched i x_key1 in
      let read : t x_key1 j ≡ some (stopped i) =
        key1 j
        ∙ ap (λ (ys : List ℤ). some (elim ys as (λ z. Input) [ [] ↦ stopped i | y ∷ zs ↦ j ])) e in
      runs 0 i x_key1 (stopped i) p read
      ∙ ap (λ b. if b then run_keys t 0 (stopped i) else some (stopped i))
          (==ℤ-ne x_key1 (pos 0) x_key1-ne)

  -- The machine waits for a key, having read those that were queued.
  record Waits (i : Input) (ks xs : List ℤ) (j : Input) : Type 0 where
    waits : j.vm.suspended ≡ x_key1
    empty : j.inbuf ≡ []
    read : stack j.vm ≡ some (onto ks xs)
    same : j.vm.m ≡ i.vm.m
    token : i.vm.m j.vm.ip ≡ x_key2
    place : inc j.vm.ip ≡ behind i.vm.ip ks

  reads_all :
      (ks xs : List ℤ) (i : Input)
      → i.vm.suspended ≡ pos 0
      → i.inbuf ≡ ks
      → KeyCode i.vm.m x_key1 x_key2 i.vm.ip ks
      → stack i.vm ≡ some xs
      → (j : Input) × (run_keys t (words ks) i ≡ some j) × Waits i ks xs j
  unfolding KeyCode push
  reads_all [] xs i s e (p, q) h = (
    stopped i,
    key1_waits i e p,
    record { waits = refl; empty = e; read = h; same = refl; token = q; place = refl },
  )
  reads_all (k ∷ ks) xs i s e (p, q, code) h =
      let u = taken (fetched i x_key1) k ks in
      let (j, r, w) = reads_all ks (k ∷ xs) u s refl code (stack-push i.vm k xs h) in
      (
        j,
        key1_passes (suc (words ks)) i k ks s e p
            ∙ key2_reads (words ks) (fetched i x_key1) k ks s e q
            ∙ r,
        record {
          waits = w.waits;
          empty = w.empty;
          read = w.read;
          same = w.same;
          token = w.token;
          place = w.place;
        },
      )

  -- Keys pressed while the machine does not wait for one are queued. When the machine then runs code that
  -- reads a key as often as there are keys queued, and once more, it reads the queued keys in the
  -- order in which they were pressed, and waits for one more. The key that is pressed then starts
  -- the machine again, and it is read before anything else happens: the handler goes on with the
  -- code behind, with that key on top of the others and no key left in the queue.
  pub keys-delivered :
      (fuel : ℕ) (k : ℤ) (ks xs : List ℤ) (i : Input)
      → i.vm.suspended ≢ x_key1
      → i.inbuf ≡ []
      → KeyCode i.vm.m x_key1 x_key2 i.vm.ip ks
      → stack i.vm ≡ some xs
      → (pressed : Input) × (waiting : Input) × (after : Input) × (presses t fuel x_key1 ks i
          ≡ some pressed)
        × (virtualmachine_keys t (words ks) i.vm.ip pressed ≡ some waiting)
        × (waiting.vm.suspended ≡ x_key1)
        × (stack waiting.vm ≡ some (onto ks xs))
        × (key_event t (suc fuel) x_key1 k waiting ≡ run_keys t fuel after)
        × (stack after.vm ≡ some (k ∷ onto ks xs))
        × (after.vm.ip ≡ behind i.vm.ip ks)
        × (after.inbuf ≡ [])
        × (after.vm.m ≡ i.vm.m)
  unfolding key_event virtualmachine_keys push
  keys-delivered fuel k ks xs i s e code h =
      let pressed = record i { inbuf = ks } in
      let begun = record pressed { vm = record (i.vm) { suspended = pos 0 } } in
      let (waiting, r, w) = reads_all ks xs begun refl refl code h in
      let entered = record waiting {
        vm = record (waiting.vm) { suspended = pos 0 };
        inbuf = waiting.inbuf ++ k ∷ [];
      } in
      let token = ap (λ m. m waiting.vm.ip) w.same ∙ w.token in
      let started : key_event t (suc fuel) x_key1 k waiting ≡ run_keys t (suc fuel) entered =
        ap
          (λ b.
            if b
            then run_keys t (suc fuel) entered
            else some (record waiting { inbuf = waiting.inbuf ++ k ∷ [] }))
          ((==ℤ_iff waiting.vm.suspended x_key1).1 w.waits) in
      (
        pressed,
        waiting,
        taken entered k [],
        queued fuel ks i s ∙ ap (λ ys. some (record i { inbuf = ys ++ ks })) e,
        r,
        w.waits,
        w.read,
        started ∙ key2_reads fuel entered k [] refl (ap (λ ys. ys ++ k ∷ []) w.empty) token,
        stack-push waiting.vm k (onto ks xs) w.read,
        w.place,
        refl,
        w.same,
      )
