-- ===== src/Blocks/Web/Layout.antt =====
-- How the text of a file lies in a block's buffer.
use post.Prelude.{
  ℤ, pos, pos_part, ◌-ℤ◌, ◌≢◌, update_ne, update_self, ◌+ℤ◌, Store, update, ℕ, zero, suc, ◌+◌, ◌-◌,
  ◌%◌, ◌≤◌, ◌<◌, ltb, ◌==◌, if◌then◌else◌, [], ◌∷◌, ◌++◌, length, true, false, Bool-cases, inl, inr,
  ◌≡◌, refl, ap, ◌∙◌, sym, arith,
}
use mathlib.Core.Path.{subst}
use post.Text.{Text}
use post.Input.{bl}
use post.Terminal.{at}
use post.Memory.{fill_loop}
use post.Memory.Fill.{within, fill_loop-cells}
use post.Blocks.{spaces}
use post.Blocks.Web.{put_unit}

-- What a character becomes in column `col` of its line.
abbrev pub piece : ℕ → ℕ → Text
piece c col = if c == 10 then spaces (64 - col % 64) else c ∷ []

-- The text with each line feed filled up with blanks to a multiple of 64 characters, where the first
-- line goes on in column `col`.
unfoldable pub formatted : Text → ℕ → Text
formatted [] col = []
formatted (c ∷ cs) col = piece c col ++ formatted cs (if c == 10 then 0 else col + 1)

pub length-spaces : (n : ℕ) → length (spaces n) ≡ n
length-spaces zero = refl
length-spaces (suc n) = ground (arith, length-spaces n)

at-spaces : (n k : ℕ) → at 32 (spaces n) k ≡ 32
at-spaces zero k = refl
at-spaces (suc n) zero = refl
at-spaces (suc n) (suc k) = at-spaces n k

pub ltb-true : (k n : ℕ) → k < n → ltb k n ≡ true
ltb-true k n h = ground arith

pub at-left : (xs ys : Text) (k : ℕ) → k < length xs → at 32 (xs ++ ys) k ≡ at 32 xs k
at-left [] ys k h = absurd (ground arith)
at-left (x ∷ xs) ys zero h = refl
at-left (x ∷ xs) ys (suc k) h = at-left xs ys k (ground arith)

suc_plus : (n k : ℕ) → suc n + k ≡ suc (n + k)
suc_plus n k = omega arith

pub at-right : (xs ys : Text) (k : ℕ) → at 32 (xs ++ ys) (length xs + k) ≡ at 32 ys k
at-right [] ys k = ap (at 32 ys) (omega arith)
at-right (x ∷ xs) ys k = ap (at 32 (x ∷ (xs ++ ys))) (suc_plus (length xs) k) ∙ at-right xs ys k

pub at-past : (xs : Text) (k : ℕ) → length xs ≤ k → at 32 xs k ≡ 32
at-past [] k h = refl
at-past (x ∷ xs) zero h = absurd (ground arith)
at-past (x ∷ xs) (suc k) h = at-past xs k (ground arith)

pub length-++ : (xs ys : Text) → length (xs ++ ys) ≡ length xs + length ys
length-++ [] ys = omega arith
length-++ (x ∷ xs) ys = ground (arith, length-++ xs ys)

-- The cell `j` is none of those of the columns from `from` to `to`.
abbrev pub Apart : (a : ℤ) (from to : ℕ) (j : ℤ) → Type 0
Apart a from to j = (i : ℕ) → from ≤ i → i < to → j ≢ a +ℤ pos i

pub Apart-within :
    (a : ℤ) (out n : ℕ) (j : ℤ) → Apart a out (out + n) j → within (a +ℤ pos out) n j ≡ false
Apart-within a out n j f = elim (Bool-cases (within (a +ℤ pos out) n j)) [
  | inl e ↦
      let k = pos_part (j -ℤ (a +ℤ pos out)) in
      absurd (f (out + k) (omega arith) (ground (arith, e)) (ground (arith, e)))
  | inr e ↦ e
]

pub columns_apart : (a : ℤ) (i j : ℕ) → i < j → a +ℤ pos i ≢ a +ℤ pos j
columns_apart a i j h e = absurd (ground arith)

-- A round went from `m` to `put` and wrote `xs` from column `out` on.
pub record Put (xs : Text) (out : ℕ) (a : ℤ) (m : Store) (put : ℕ × Store) : Type 0 where
  pub moves : put.0 ≡ out + length xs
  pub fits : put.0 ≤ 1024
  pub cells : (k : ℕ) → k < length xs → put.1 (a +ℤ pos (out + k)) ≡ pos (at 32 xs k)
  pub others : (j : ℤ) → Apart a out (out + length xs) j → put.1 j ≡ m j

pub within_at : (a : ℤ) (out n k : ℕ) → within (a +ℤ pos out) n (a +ℤ pos (out + k)) ≡ ltb k n
within_at a out n k = ground arith

is_ten : (c : ℕ) → (c == 10) ≡ true → 10 ≡ c
is_ten c e = ground arith

newline-Put :
    (out : ℕ) (a : ℤ) (m : Store) → out < 1024 → Put (piece 10 out) out a m (put_unit 10 out a m)
unfolding put_unit
newline-Put out a m h =
    let n = 64 - out % 64 in
    let l = length-spaces n in
    record {
      moves = ap (λ i. out + i) (sym l);
      fits = ground arith;
      cells = λ k lt.
          fill_loop-cells n (a +ℤ pos out) bl m (a +ℤ pos (out + k))
          ∙ ap (λ b. if b then bl else m (a +ℤ pos (out + k)))
              (within_at a out n k ∙ ltb-true k n (subst (λ i. k < i) l lt))
          ∙ ap pos (sym (at-spaces n k));
      others = λ j o.
          fill_loop-cells n (a +ℤ pos out) bl m j
          ∙ ap (λ b. if b then bl else m j)
              (Apart-within a out n j (subst (λ i. Apart a out (out + i) j) l o));
    }

first_column :
    (c out : ℕ) (a : ℤ) (m : Store) (k : ℕ)
    → k < 1
    → update m (a +ℤ pos out) (pos c) (a +ℤ pos (out + k)) ≡ pos (at 32 (c ∷ []) k)
first_column c out a m zero h =
    ap (λ i. update m (a +ℤ pos out) (pos c) (a +ℤ pos i)) (omega arith)
    ∙ update_self m (a +ℤ pos out) (pos c)
first_column c out a m (suc k) h = absurd (omega arith)

char-Put :
    (c out : ℕ) (a : ℤ) (m : Store)
    → out < 1024
    → Put (c ∷ []) out a m (out + 1, update m (a +ℤ pos out) (pos c))
char-Put c out a m h = record {
  moves = refl;
  fits = omega arith;
  cells = λ k lt. first_column c out a m k lt;
  others =
      λ j o. update_ne m (a +ℤ pos out) (pos c) j (λ e. o out (omega arith) (omega arith) (sym e));
}

other-Put :
    (c out : ℕ) (a : ℤ) (m : Store)
    → (c == 10) ≡ false
    → out < 1024
    → Put (piece c out) out a m (put_unit c out a m)
unfolding put_unit
other-Put c out a m e h =
    subst
      (λ b. Put (if b then spaces (64 - out % 64) else c ∷ []) out a m (
        if b
        then (out + (64 - out % 64), fill_loop (64 - out % 64) (a +ℤ pos out) bl m)
        else (out + 1, update m (a +ℤ pos out) (pos c))))
      (sym e) (char-Put c out a m h)

pub unit-Put :
    (c out : ℕ) (a : ℤ) (m : Store) → out < 1024 → Put (piece c out) out a m (put_unit c out a m)
unit-Put c out a m h = elim (Bool-cases (c == 10)) [
  | inl e ↦
      subst (λ n. Put (piece n out) out a m (put_unit n out a m)) (is_ten c e)
        (newline-Put out a m h)
  | inr e ↦ other-Put c out a m e h
]
