-- ===== src/Input/Delimited.antt =====
-- What the loops of `parse` find.
use post.Prelude.{
  ℤ, pos, ◌+ℤ◌, ◌==ℤ◌, Bool, true, false, Store, ℕ, zero, suc, ◌+◌, ◌-◌, ◌≤◌, ◌<◌, ◌≡◌, ◌≢◌, inl,
  inr, refl, sym, arith, ap, ◌∙◌, Bool-cases, not, ==ℤ_iff, if◌then◌else◌,
}
use post.Vm.{inc}
use post.Memory.{search_loop}
use post.Memory.Scan.{search_loop-Stops}
use post.Input.{skip_delimiters, find_delimiter, bl}

-- The loops of `parse` go where those of `skip` and of `scan` go.
skip-search :
    (n : ℕ) (m : Store) (c w : ℤ)
    → skip_delimiters n m c w ≡ (search_loop (λ x. not (x ==ℤ c)) n m w).0
unfolding skip_delimiters search_loop
skip-search zero m c w = refl
skip-search (suc n) m c w = elim (Bool-cases (m w ==ℤ c)) [
  | inl e ↦ rw e (skip-search n m c (inc w))
  | inr e ↦ rw e refl
]

find-search :
    (n : ℕ) (m : Store) (c w x : ℤ)
    → (find_delimiter n m c w x).0 ≡ (search_loop (λ x. x ==ℤ c) n m w).0
unfolding find_delimiter search_loop
find-search zero m c w x = refl
find-search (suc n) m c w x = elim (Bool-cases (m w ==ℤ c)) [
  | inl e ↦ rw e refl
  | inr e ↦ rw e (find-search n m c (inc w) (m w))
]

-- A character that stops the second loop inside the buffer is the delimiter.
find-nxtchar :
    (n : ℕ) (m : Store) (c w x : ℤ)
    → (search_loop (λ x. x ==ℤ c) n m w).1 ≢ 0
    → (find_delimiter n m c w x).1 ≡ c
unfolding find_delimiter search_loop
find-nxtchar zero m c w x = λ h. absurd (h refl)
find-nxtchar (suc n) m c w x = elim (Bool-cases (m w ==ℤ c)) [
  | inl e ↦ rw e (λ h. (==ℤ_iff (m w) c).0 e)
  | inr e ↦ rw e (find-nxtchar n m c (inc w) (m w))
]

true-false : true ≡ false → ⊥
true-false e = cc

suc-zero : (n : ℕ) → suc n ≡ 0 → ⊥
suc-zero n h = omega arith

-- Where the second loop ends with the buffer, the last character is none that ends it.
find-last :
    (n : ℕ) (m : Store) (c w x : ℤ)
    → (search_loop (λ x. x ==ℤ c) n m w).1 ≡ 0
    → (n ≡ 0 → (x ==ℤ c) ≡ false)
    → ((find_delimiter n m c w x).1 ==ℤ c) ≡ false
unfolding find_delimiter search_loop
find-last zero m c w x h e = e refl
find-last (suc n) m c w x h e = elim (Bool-cases (m w ==ℤ c)) [
  | inl q ↦ absurd (
      suc-zero n (
        ap (λ b. (if b then (w, suc n) else search_loop (λ x. x ==ℤ c) n m (inc w)).1) (sym q) ∙ h))
  | inr q ↦ rw q (
      find-last n m c (inc w) (m w)
        (ap (λ b. (if b then (w, suc n) else search_loop (λ x. x ==ℤ c) n m (inc w)).1) (sym q) ∙ h)
        (λ z. q))
]

-- In an empty buffer it is the one that the code has read before.
find-empty : (n : ℕ) (m : Store) (c w x : ℤ) → n ≡ 0 → (find_delimiter n m c w x).1 ≡ x
unfolding find_delimiter
find-empty zero m c w x h = refl
find-empty (suc n) m c w x h = absurd (suc-zero n h)

pub pos_add : (a b : ℕ) → pos a +ℤ pos b ≡ pos (a + b)
pos_add a b = ground arith

not-false : (b : Bool) → not b ≡ false → b ≡ true
not-false b h = ground arith

==ℤ_not : (x c : ℤ) → not (x ==ℤ c) ≡ true → x ≢ c
==ℤ_not x c h q = absurd (ground (arith, (==ℤ_iff x c).1 q))

-- What the first loop passes, if it is run: `first` of the `n` cells from `w` on.
pub record IsSkipped (m : Store) (c : ℤ) (w n first : ℕ) : Type 0 where
  pub first_le : first ≤ n
  pub blanks : (j : ℕ) → j < first → (c ≡ bl) × (m (pos (w + j)) ≡ bl)
  pub letter : c ≡ bl → first < n → m (pos (w + first)) ≢ c

pub IsSkipped-cells :
    (n : ℕ) (m : Store) (c : ℤ) (w : ℕ)
    → (first : ℕ) × ((if c ==ℤ bl then skip_delimiters n m c (pos w) else pos w) ≡ pos (w + first))
      × IsSkipped m c w n first
IsSkipped-cells n m c w = elim (Bool-cases (c ==ℤ bl)) [
  | inr e ↦ rw e (
    0,
    ground arith,
    record {
      first_le = omega arith;
      blanks = λ j l. absurd (omega arith);
      letter = λ q. absurd (ground arith);
    },
  )
  | inl e ↦
      let found = search_loop (λ x. not (x ==ℤ c)) n m (pos w) in
      let s = search_loop-Stops (λ x. not (x ==ℤ c)) n m (pos w) in
      rw e (
        n - found.1,
        skip-search n m c (pos w) ∙ s.place ∙ pos_add w (n - found.1),
        record {
          first_le = omega arith;
          blanks = λ j l.
              let c_bl = (==ℤ_iff c bl).0 e in
              let x = m (pos w +ℤ pos j) in
              let x_c = (==ℤ_iff x c).0 (not-false (x ==ℤ c) (s.passed j l)) in
              (c_bl, ap m (sym (pos_add w j)) ∙ x_c ∙ c_bl);
          letter = λ q l. elim s.at_stop [
            | inl z ↦ absurd (omega arith)
            | inr t ↦ rw (← pos_add w (n - found.1), ← s.place) (==ℤ_not (m found.0) c t)
          ];
        },
      )
]

-- What the second loop finds: `len` of the `n` cells from `w` on, and `past` is 1 where the delimiter that
-- ends them is passed, and 0 where the source's end ends them. In a source that has no cell left, the code
-- tests the cell behind its end.
pub record IsText (m : Store) (c : ℤ) (w n len past : ℕ) : Type 0 where
  pub len_le : len ≤ n
  pub letters : (j : ℕ) → j < len → m (pos (w + j)) ≢ c
  pub ended : len < n → (m (pos (w + len)) ≡ c) × (past ≡ 1)
  pub source_end : len ≡ n → 0 < n → past ≡ 0
  pub source_empty : n ≡ 0 → past ≡ (if m (pos w) ==ℤ c then 1 else 0)

==ℤ-false : (x c : ℤ) → (x ==ℤ c) ≡ false → x ≢ c
==ℤ-false x c h q = absurd (ground (arith, (==ℤ_iff x c).1 q))

pub IsText-cells :
    (n : ℕ) (m : Store) (c : ℤ) (w : ℕ)
    → let x = m (pos w) in
      (len : ℕ) × (past : ℕ) × ((find_delimiter n m c (pos w) x).0 ≡ pos (w + len))
      × ((if (find_delimiter n m c (pos w) x).1 ==ℤ c
            then inc (find_delimiter n m c (pos w) x).0
            else (find_delimiter n m c (pos w) x).0)
          ≡ pos (w + len + past))
      × IsText m c w n len past
IsText-cells n m c w =
    let x = m (pos w) in
    let found = search_loop (λ x. x ==ℤ c) n m (pos w) in
    let s = search_loop-Stops (λ x. x ==ℤ c) n m (pos w) in
    let last = find_delimiter n m c (pos w) x in
    let len = n - found.1 in
    let at : last.0 ≡ pos (w + len) = find-search n m c (pos w) x ∙ s.place ∙ pos_add w len in
    let letters : (j : ℕ) → j < len → m (pos (w + j)) ≢ c =
      λ j l. rw (← pos_add w j) (==ℤ-false (m (pos w +ℤ pos j)) c (s.passed j l)) in
    let stop : len < n → m (pos (w + len)) ≡ c = λ l. elim s.at_stop [
      | inl z ↦ absurd (omega arith)
      | inr t ↦ rw (← pos_add w len, ← s.place) ((==ℤ_iff (m found.0) c).0 t)
    ] in
    let delimiter : len < n → last.1 ≡ c =
      λ l. find-nxtchar n m c (pos w) x (λ z. absurd (omega arith)) in
    let other : len ≡ n → 0 < n → (last.1 ==ℤ c) ≡ false =
      λ q l. find-last n m c (pos w) x (omega arith) (λ z. absurd (omega arith)) in
    let nothing : n ≡ 0 → (last.1 ==ℤ c) ≡ (x ==ℤ c) =
      λ z. ap (λ y. y ==ℤ c) (find-empty n m c (pos w) x z) in
    elim (Bool-cases (last.1 ==ℤ c)) [
      | inl e ↦ (
        len,
        1,
        at,
        rw (e, at) (pos_add (w + len) 1),
        record {
          len_le = omega arith;
          letters = letters;
          ended = λ l. (stop l, refl);
          source_end = λ q l. absurd (true-false (sym e ∙ other q l));
          source_empty = λ z. ap (λ b. if b then 1 else 0) (sym e ∙ nothing z);
        },
      )
      | inr e ↦ (
        len,
        0,
        at,
        rw (e, at) (ground arith),
        record {
          len_le = omega arith;
          letters = letters;
          ended = λ l. absurd (==ℤ-false last.1 c e (delimiter l));
          source_end = λ q l. refl;
          source_empty = λ z. ap (λ b. if b then 1 else 0) (sym e ∙ nothing z);
        },
      )
    ]
