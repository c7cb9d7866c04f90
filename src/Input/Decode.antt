-- ===== src/Input/Decode.antt =====
-- What `decode` does to the line of `accept`.
use post.Prelude.{
  ℤ, pos, ◌==ℤ◌, ltb_ℤ, ℕ, ◌≤◌, some, List, ◌∷◌, ◌≡◌, ◌≢◌, inl, inr, refl, ap, ◌∙◌, Bool-cases,
  ==ℤ-ne, if◌then◌else◌,
}
use post.Vm.{pop}
use post.Stack.View.{stack, top_at}
use post.Input.{
  Input, bl, forth_acceptprintable, forth_acceptreturn, forth_acceptcontrolchar, forth_decode,
}
use post.Input.Edit.{
  Edited, unchanged, dropped_key, printable, escaped, backspace, returned, tabbed,
}

-- What a key other than return does to the line.
control :
    (i : Input) (c : ℤ) (b e n : ℕ) (xs : List ℤ)
    → c ≢ pos 13
    → b ≤ e
    → 1 ≤ n
    → stack i.vm ≡ some (c ∷ pos n ∷ pos e ∷ pos b ∷ xs)
    → Edited i.vm.m (forth_acceptcontrolchar c i).vm b e n xs
unfolding forth_acceptcontrolchar
control i c b e n xs ne le room h =
    let other = unchanged (pop i.vm) b e n xs le room (dropped_key i.vm c b e n xs h).0 in
    let back = backspace i c b e n xs le room h in
    elim (Bool-cases (c ==ℤ pos 27)) [
      | inl q ↦ rw (forth_acceptcontrolchar, q) (escaped i c b e n xs le room h)
      | inr q ↦ elim (Bool-cases (c ==ℤ pos 8)) [
        | inl q8 ↦ rw (forth_acceptcontrolchar, q, q8) back
        | inr q8 ↦ elim (Bool-cases (c ==ℤ pos 17)) [
          | inl q17 ↦ rw (forth_acceptcontrolchar, q, q8, q17) back
          | inr q17 ↦ elim (Bool-cases (c ==ℤ pos 9)) [
            | inl q9 ↦
                rw (forth_acceptcontrolchar, q, q8, q17, ==ℤ-ne c (pos 13) ne, q9)
                  (tabbed i c b e n xs le room h)
            | inr q9 ↦ rw (forth_acceptcontrolchar, q, q8, q17, ==ℤ-ne c (pos 13) ne, q9) other
          ]
        ]
      ]
    ]

-- `decode` keeps the line of `accept` in its bounds: for a key other than return, the cursor does not pass
-- the line's start, cursor and room add up as before, there is room for a key at least, and no cell but the
-- one at the cursor is written, the cursor being behind it then. It leaves no flag.
pub decode-Edited :
    (i : Input) (c : ℤ) (b e n : ℕ) (xs : List ℤ)
    → c ≢ pos 13
    → b ≤ e
    → 1 ≤ n
    → stack i.vm ≡ some (c ∷ pos n ∷ pos e ∷ pos b ∷ xs)
    → Edited i.vm.m (forth_decode i).vm b e n xs
unfolding forth_decode
decode-Edited i c b e n xs ne le room h =
    let tos = top_at i.vm.tos i.vm.s i.vm.sp c (pos n ∷ pos e ∷ pos b ∷ xs) h in
    elim (Bool-cases (ltb_ℤ i.vm.tos bl)) [
      | inl q ↦ rw (forth_decode, q) (rw tos (control i c b e n xs ne le room h))
      | inr q ↦ rw (forth_decode, q) (printable i c b e n xs le room h)
    ]

return_key :
    (i : Input) (t : ℤ)
    → t ≡ pos 13
    → (if ltb_ℤ t bl then forth_acceptcontrolchar t i else forth_acceptprintable i)
      ≡ forth_acceptreturn i
unfolding forth_acceptcontrolchar
return_key i t e = rw e refl

return_memory : (i : Input) → (forth_acceptreturn i).vm.m ≡ i.vm.m
unfolding forth_acceptreturn
return_memory i = refl

-- At return, `decode` leaves room for no key, with the cursor behind the last character of the line, and
-- memory as it was.
pub decode-return :
    (i : Input) (b e n : ℕ) (xs : List ℤ)
    → stack i.vm ≡ some (pos 13 ∷ pos n ∷ pos e ∷ pos b ∷ xs)
    → (stack (forth_decode i).vm ≡ some (pos 0 ∷ pos e ∷ pos b ∷ xs))
      × ((forth_decode i).vm.m ≡ i.vm.m)
unfolding forth_decode
decode-return i b e n xs h =
    let tos = top_at i.vm.tos i.vm.s i.vm.sp (pos 13) (pos n ∷ pos e ∷ pos b ∷ xs) h in
    let same : forth_decode i ≡ forth_acceptreturn i = return_key i i.vm.tos tos in
    (
      ap (λ (u : Input). stack u.vm) same ∙ returned i (pos 13) b e n xs h,
      ap (λ (u : Input). u.vm.m) same ∙ return_memory i,
    )
