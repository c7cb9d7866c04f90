-- ===== src/Dictionary/Search.antt =====
-- `search` finds the latest header, in the order of the vocabularies.
use post.Prelude.{
  ℤ, pos, ◌==ℤ◌, ==ℤ_iff, ℕ, zero, suc, ◌≤◌, ◌<◌, ◌==◌, Bool, true, false, ◌&&◌, if◌then◌else◌, [],
  ◌∷◌, ◌≡◌, ◌≢◌, inl, inr, refl, ap, ◌∙◌, sym, arith, Bool-cases,
}
use mathlib.Core.Path.{ap₂}
use native.Mathlib.Decide.{dec_lt}
use post.Number.{js_and}
use post.Text.{Text}
use post.Dictionary.{
  Dictionary, is_found, is_header, share_bit, same_text, search_loop, forth_search1, context,
  compliance, casesensitive, smudgebit,
}

-- What a search by name looks for: header `i` has a name, that is the name searched for, in lower case where
-- the case does not count; the header is revealed, and belongs to the context vocabulary and to a
-- standard that is asked for.
pub record Matches (to_lower_case : Text → Text) (d : Dictionary) (name : Text) (i : ℕ)
    : Type 0 where
  pub named : d.h i ≢ []
  pub same_name : (if d.vm.m casesensitive ==ℤ pos 0 then to_lower_case (d.h i) else d.h i) ≡ name
  pub is_revealed : js_and (d.hf i) smudgebit ≢ pos 0
  pub in_context : js_and (d.vm.m context) (d.ds i) ≢ pos 0
  pub complies : js_and (d.vm.m compliance) (d.ds i) ≢ pos 0

false-true : false ≡ true → ⊥
false-true e = cc

same_text_refl : (a : Text) → same_text a a ≡ true
same_text_refl [] = refl
same_text_refl (c ∷ cs) = let e : (c == c) ≡ true = ground arith in rw (e, same_text_refl cs) refl

same_text_eq : (a b : Text) → same_text a b ≡ true → a ≡ b
same_text_eq [] [] h = refl
same_text_eq [] (c ∷ cs) h = cc
same_text_eq (c ∷ cs) [] h = cc
same_text_eq (c ∷ cs) (e ∷ es) h = elim (Bool-cases (c == e)) [
  | inl q ↦
      let c_e : c ≡ e = ground arith in
      ap₂ (λ x xs. x ∷ xs) c_e
        (same_text_eq cs es (ap (λ b. if b then same_text cs es else false) (sym q) ∙ h))
  | inr q ↦ absurd (false-true (ap (λ b. if b then same_text cs es else false) (sym q) ∙ h))
]

share_bit_ne : (a b : ℤ) → share_bit a b ≡ true → js_and a b ≢ pos 0
share_bit_ne a b h = λ q. absurd (ground (arith, (==ℤ_iff (js_and a b) (pos 0)).1 q))

ne-share_bit : (a b : ℤ) → js_and a b ≢ pos 0 → share_bit a b ≡ true
ne-share_bit a b h = elim (Bool-cases (js_and a b ==ℤ pos 0)) [
  | inl e ↦ absurd (h ((==ℤ_iff (js_and a b) (pos 0)).0 e))
  | inr e ↦ rw e refl
]

is_header_ne : (a : Text) → is_header a ≡ true → a ≢ []
is_header_ne [] h = λ q. cc
is_header_ne (c ∷ cs) h = λ q. cc

ne-is_header : (a : Text) → a ≢ [] → is_header a ≡ true
ne-is_header [] h = absurd (h refl)
ne-is_header (c ∷ cs) h = refl

all_five :
    (a b c e f : Bool)
    → (a && (b && (c && (e && f)))) ≡ true
    → (a ≡ true) × (b ≡ true) × (c ≡ true) × (e ≡ true) × (f ≡ true)
all_five a b c e f h = ground arith

five_all :
    (a b c e f : Bool)
    → a ≡ true
    → b ≡ true
    → c ≡ true
    → e ≡ true
    → f ≡ true
    → (a && (b && (c && (e && f)))) ≡ true
five_all a b c e f p q r s t = ground arith

-- `i` is the last of the headers 1 to `n` that are looked for, or 0 where none is.
pub data Latest (P : ℕ → Type 0) (n : ℕ) (i : ℕ) : Type 0 where
  no_header : i ≡ 0 → ((j : ℕ) → 0 < j → j ≤ n → ¬ P j) → Latest P n i
  last_header : 0 < i → i ≤ n → P i → ((j : ℕ) → i < j → j ≤ n → ¬ P j) → Latest P n i

Latest-suc : (P : ℕ → Type 0) (n i : ℕ) → ¬ P (suc n) → Latest P n i → Latest P (suc n) i
Latest-suc P n i e (no_header z none_before) = no_header z (λ j p q. elim (dec_lt n j) [
  | yes r ↦ let j_n : j ≡ suc n = omega arith in rw j_n e
  | no r ↦ none_before j p (omega arith)
])
Latest-suc P n i e (last_header p q t later) = last_header p (omega arith) t (λ j r s.
    elim (dec_lt n j) [
      | yes l ↦ let j_n : j ≡ suc n = omega arith in rw j_n e
      | no l ↦ later j r (omega arith)
    ])

module _ (to_lower_case : Text → Text) where
  found-Matches :
      (d : Dictionary) (name : Text) (i : ℕ)
      → is_found to_lower_case d name i ≡ true
      → Matches to_lower_case d name i
  found-Matches d name i h =
      let (a, b, c, e, f) = all_five _ _ _ _ _ h in
      record {
        named = is_header_ne (d.h i) a;
        same_name = same_text_eq _ name e;
        is_revealed = share_bit_ne (d.hf i) smudgebit c;
        in_context = share_bit_ne (d.vm.m context) (d.ds i) b;
        complies = share_bit_ne (d.vm.m compliance) (d.ds i) f;
      }

  Matches-found :
      (d : Dictionary) (name : Text) (i : ℕ)
      → Matches to_lower_case d name i
      → is_found to_lower_case d name i ≡ true
  Matches-found d name i h =
      let w = if d.vm.m casesensitive ==ℤ pos 0 then to_lower_case (d.h i) else d.h i in
      five_all _ _ _ _ _ (ne-is_header (d.h i) h.named)
        (ne-share_bit (d.vm.m context) (d.ds i) h.in_context)
        (ne-share_bit (d.hf i) smudgebit h.is_revealed)
        (ap (same_text w) (sym h.same_name) ∙ same_text_refl w)
        (ne-share_bit (d.vm.m compliance) (d.ds i) h.complies)

  search_loop-Latest :
      (n : ℕ) (d : Dictionary) (name : Text)
      → Latest (Matches to_lower_case d name) n (search_loop to_lower_case n d name)
  unfolding search_loop
  search_loop-Latest zero d name = no_header refl (λ j p q. absurd (omega arith))
  search_loop-Latest (suc n) d name = elim (Bool-cases (is_found to_lower_case d name (suc n))) [
    | inl e ↦ rw e (
        last_header (omega arith) (omega arith) (found-Matches d name (suc n) e)
          (λ j p q. absurd (omega arith)))
    | inr e ↦ rw e (
        Latest-suc (Matches to_lower_case d name) n (search_loop to_lower_case n d name)
          (λ q. false-true (sym e ∙ Matches-found d name (suc n) q)) (search_loop-Latest n d name))
  ]

  -- Within a vocabulary, the search returns the last header with the name that is revealed and belongs
  -- to the context vocabulary and to a standard that is asked for, or 0 if there is none. The header's
  -- name is taken in lower case where the case does not count.
  pub forth_search1-Latest :
      (name : Text) (d : Dictionary)
      → Latest (Matches to_lower_case d name) d.wc (forth_search1 to_lower_case name d)
  unfolding forth_search1
  forth_search1-Latest name d = search_loop-Latest d.wc d name
