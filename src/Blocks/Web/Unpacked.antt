-- ===== src/Blocks/Web/Unpacked.antt =====
-- What unpacking a file writes to the buffer.
use post.Prelude.{
  ℤ, pos, ◌+ℤ◌, Store, ℕ, ◌+◌, ◌-◌, ◌%◌, ◌≤◌, ◌<◌, leb, ltb, ◌==◌, if◌then◌else◌, [], ◌∷◌, ◌++◌,
  length, Bool-cases, inl, inr, ◌≡◌, refl, ap, ◌∙◌, sym, arith,
}
use mathlib.Core.Path.{subst}
use post.Text.{Text}
use post.Input.{bl}
use post.Terminal.{at}
use post.Memory.Fill.{within, fill_loop-cells}
use post.Blocks.{spaces}
use post.Blocks.Web.{put_unit, unpack_loop, unpack_contents}
use post.Blocks.Web.Layout.{
  Apart, Apart-within, Put, at-left, at-past, at-right, columns_apart, formatted, length-++,
  length-spaces, ltb-true, piece, unit-Put, within_at,
}

-- The loop went from `m` to `r` and wrote `xs` from column `out` on, up to the end of the buffer.
record Unpacked (xs : Text) (out : ℕ) (a : ℤ) (m : Store) (r : ℕ × Store) : Type 0 where
  least : out ≤ r.0
  most : r.0 ≤ 1024
  cells : (k : ℕ) → out + k < r.0 → r.1 (a +ℤ pos (out + k)) ≡ pos (at 32 xs k)
  others : (j : ℤ) → Apart a out 1024 j → r.1 j ≡ m j
  ends : r.0 < 1024 → r.0 ≡ out + length xs

module _ (xs rest : Text) (out : ℕ) (a : ℤ) (m : Store) (put : ℕ × Store)
    (p : Put xs out a m put) where
  full : put.0 ≡ 1024 → Unpacked (xs ++ rest) out a m put
  full e =
      let moves = p.moves in
      record {
        least = omega arith;
        most = p.fits;
        cells = λ k lt. p.cells k (omega arith) ∙ ap pos (sym (at-left xs rest k (omega arith)));
        others = λ j f. p.others j (λ i le lt. f i le (omega arith));
        ends = λ lt. absurd (omega arith);
      }

  module _ (r : ℕ × Store) (u : Unpacked rest put.0 a put.1 r) where
    stitch_cells : (k : ℕ) → out + k < r.0 → r.1 (a +ℤ pos (out + k)) ≡ pos (at 32 (xs ++ rest) k)
    stitch_cells k lt =
        let moves = p.moves in
        elim (Bool-cases (ltb k (length xs))) [
          | inl e ↦
              u.others (a +ℤ pos (out + k)) (λ i le l. columns_apart a (out + k) i (ground arith))
              ∙ p.cells k (ground arith)
              ∙ ap pos (sym (at-left xs rest k (ground arith)))
          | inr e ↦
              let k' = k - length xs in
              let here : out + k ≡ put.0 + k' = ground arith in
              ap (λ i. r.1 (a +ℤ pos i)) here
              ∙ u.cells k' (ground arith)
              ∙ ap pos (sym (at-right xs rest k') ∙ ap (at 32 (xs ++ rest)) (ground arith))
        ]

    stitch : Unpacked (xs ++ rest) out a m r
    stitch =
        let moves = p.moves in
        let least = u.least in
        let fits = p.fits in
        record {
          least = omega arith;
          most = u.most;
          cells = stitch_cells;
          others = λ j f.
              u.others j (λ i le lt. f i (omega arith) lt)
              ∙ p.others j (λ i le lt. f i le (omega arith));
          ends = λ lt. let l = length-++ xs rest in u.ends lt ∙ omega arith;
        }

piece_column : (c col out : ℕ) → col % 64 ≡ out % 64 → piece c col ≡ piece c out
piece_column c col out e = ap (λ r. if c == 10 then spaces (64 - r) else c ∷ []) e

line_end : (out : ℕ) → 0 ≡ (out + (64 - out % 64)) % 64
line_end out = omega arith

-- The column in the buffer and that in the line keep their remainder by 64.
columns_agree :
    (c col out : ℕ)
    → col % 64 ≡ out % 64
    → (if c == 10 then 0 else col + 1) % 64 ≡ (out + length (piece c out)) % 64
columns_agree c col out e = elim (Bool-cases (c == 10)) [
  | inl h ↦ rw h (line_end out ∙ ap (λ n. (out + n) % 64) (sym (length-spaces (64 - out % 64))))
  | inr h ↦ rw h (omega arith)
]

unpack_loop_lem :
    (cs : Text) (col out : ℕ) (a : ℤ) (m : Store)
    → col % 64 ≡ out % 64
    → out < 1024
    → Unpacked (formatted cs col) out a m (unpack_loop cs out a m)
unfolding formatted unpack_loop
unpack_loop_lem [] col out a m e h = record {
  least = omega arith;
  most = omega arith;
  cells = λ k lt. absurd (omega arith);
  others = λ j f. refl;
  ends = λ lt. omega arith;
}
unpack_loop_lem (c ∷ cs) col out a m e h =
    let put = put_unit c out a m in
    let col1 = if c == 10 then 0 else col + 1 in
    let rest = formatted cs col1 in
    let p = unit-Put c out a m h in
    subst
      (λ xs.
        Unpacked (xs ++ rest) out a m
          (if leb 1024 put.0 then put else unpack_loop cs put.0 a put.1))
      (sym (piece_column c col out e))
      (elim (Bool-cases (leb 1024 put.0)) [
        | inl b ↦ rw b (full (piece c out) rest out a m put p (let q = p.fits in ground arith))
        | inr b ↦ rw b (
            stitch (piece c out) rest out a m put p (unpack_loop cs put.0 a put.1) (
              unpack_loop_lem cs col1 put.0 a put.1
                (columns_agree c col out e ∙ ap (λ n. n % 64) (sym p.moves)) (ground arith)))
      ])

-- The blanks after the text.
filled_cells :
    (xs : Text) (a : ℤ) (m : Store) (r : ℕ × Store)
    → Unpacked xs 0 a m r
    → (k : ℕ) → k < 1024
    → (if within (a +ℤ pos r.0) (1024 - r.0) (a +ℤ pos k) then bl else r.1 (a +ℤ pos k))
      ≡ pos (at 32 xs k)
filled_cells xs a m r u k lt =
    let most = u.most in
    elim (Bool-cases (ltb k r.0)) [
      | inl e ↦
          ap (λ b. if b then bl else r.1 (a +ℤ pos k))
            (Apart-within a r.0 (1024 - r.0) (a +ℤ pos k)
              (λ i le l. columns_apart a k i (ground arith)))
          ∙ ap (λ i. r.1 (a +ℤ pos i)) (omega arith)
          ∙ u.cells k (ground arith)
      | inr e ↦
          let beyond : r.0 ≤ k = ground arith in
          let length_xs = u.ends (omega arith) in
          ap (λ i. if within (a +ℤ pos r.0) (1024 - r.0) (a +ℤ pos i) then bl else r.1 (a +ℤ pos k))
            (omega arith)
          ∙ ap (λ b. if b then bl else r.1 (a +ℤ pos k))
              (within_at a r.0 (1024 - r.0) (k - r.0)
                ∙ ltb-true (k - r.0) (1024 - r.0) (omega arith))
          ∙ ap pos (sym (at-past xs k (omega arith)))
    ]

-- A file that is unpacked fills the 1024 cells of the buffer at `a`: with its characters, where each line
-- feed stands for the blanks up to the next multiple of 64 columns, as far as they fit, and with
-- blanks after them. No other cell changes.
pub unpack_contents-cells :
    (contents : Text) (a : ℤ) (m : Store)
    → ((k : ℕ)
        → k < 1024
        → unpack_contents contents a m (a +ℤ pos k) ≡ pos (at 32 (formatted contents 0) k))
      × ((j : ℤ) → Apart a 0 1024 j → unpack_contents contents a m j ≡ m j)
unfolding unpack_contents
unpack_contents-cells contents a m =
    let r = unpack_loop contents 0 a m in
    let u = unpack_loop_lem contents 0 0 a m refl (omega arith) in
    let most = u.most in
    (
      λ k lt.
          fill_loop-cells (1024 - r.0) (a +ℤ pos r.0) bl r.1 (a +ℤ pos k)
          ∙ filled_cells (formatted contents 0) a m r u k lt,
      λ j f.
          fill_loop-cells (1024 - r.0) (a +ℤ pos r.0) bl r.1 j
          ∙ ap (λ b. if b then bl else r.1 j)
              (Apart-within a r.0 (1024 - r.0) j (λ i le lt. f i (omega arith) (omega arith)))
          ∙ u.others j f,
    )
