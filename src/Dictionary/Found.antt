-- ===== src/Dictionary/Found.antt =====
-- What the search makes of a header that was just made.
use post.Prelude.{
  pos, ◌==ℤ◌, ℕ, zero, suc, ◌≤◌, ◌==◌, ◌&&◌, Bool, true, false, if◌then◌else◌, ◌≡◌, refl, ap, ◌∙◌,
  arith,
}
use mathlib.Core.Path.{ap₂}
use post.Text.{Text}
use post.Number.{js_or, js_and}
use post.Dictionary.Header.{forth_reveal}
use post.Dictionary.{
  Dictionary, newheader, forth_search1, search_loop, is_found, is_header, share_bit, same_text,
  smudgebit, any, foerthchen, current, context, compliance, casesensitive,
}

no_flags : share_bit (pos 0) smudgebit ≡ false
unfolding js_and
no_flags = refl

smudged : share_bit (js_or (pos 0) smudgebit) smudgebit ≡ true
unfolding js_and js_or
smudged = refl

and_false : (a b c e : Bool) → c ≡ false → (a && (b && (c && e))) ≡ false
and_false a b c e h = ground arith

and_true :
    (a b c e f : Bool)
    → a ≡ true
    → b ≡ true
    → c ≡ true
    → e ≡ true
    → f ≡ true
    → (a && (b && (c && (e && f)))) ≡ true
and_true a b c e f p q r s t = ground arith

-- The header of a word that is being compiled, and what `reveal` makes of it.
abbrev pub hidden_header : Text → Dictionary → Dictionary
hidden_header name d = newheader name (pos 0) d

abbrev pub revealed : Text → Dictionary → Dictionary
revealed name d = forth_reveal (hidden_header name d)

module _ (to_lower_case : Text → Text) (name : Text) (d : Dictionary) where
  hidden_older :
      (key : Text) (i : ℕ)
      → i ≤ d.wc
      → is_found to_lower_case (hidden_header name d) key i ≡ is_found to_lower_case d key i
  unfolding newheader
  hidden_older key i h = let e : (suc d.wc == i) ≡ false = ground arith in rw e refl

  revealed_older :
      (key : Text) (i : ℕ)
      → i ≤ d.wc
      → is_found to_lower_case (revealed name d) key i ≡ is_found to_lower_case d key i
  unfolding newheader forth_reveal
  revealed_older key i h = let e : (suc d.wc == i) ≡ false = ground arith in rw e refl

  hidden_new : (key : Text) → is_found to_lower_case (hidden_header name d) key (suc d.wc) ≡ false
  unfolding newheader
  hidden_new key =
      let e : (suc d.wc == suc d.wc) ≡ true = ground arith in rw e (and_false _ _ _ _ no_flags)

  revealed_new :
      (key : Text)
      → let m = d.vm.m in
        let mask = js_or (js_or any foerthchen) (m current) in
        is_header name ≡ true
        → same_text (if m casesensitive ==ℤ pos 0 then to_lower_case name else name) key ≡ true
        → share_bit (m context) mask ≡ true
        → share_bit (m compliance) mask ≡ true
        → is_found to_lower_case (revealed name d) key (suc d.wc) ≡ true
  unfolding newheader forth_reveal
  revealed_new key p q r s =
      let e : (suc d.wc == suc d.wc) ≡ true = ground arith in
      rw e (and_true _ _ _ _ _ p r smudged q s)

  older_loop :
      (e : Dictionary) (key : Text)
      → ((i : ℕ) → i ≤ d.wc → is_found to_lower_case e key i ≡ is_found to_lower_case d key i)
      → (i : ℕ) → i ≤ d.wc
      → search_loop to_lower_case i e key ≡ search_loop to_lower_case i d key
  unfolding search_loop
  older_loop e key f zero h = refl
  older_loop e key f (suc i) h =
      ap₂ (λ b (rest : ℕ). if b then suc i else rest) (f (suc i) h)
        (older_loop e key f i (omega arith))

  -- A word that is being compiled is not found: a name still means what it meant before. From `reveal` on
  -- its own name finds it, ahead of all older words of that name, where the vocabulary that it was
  -- compiled to is searched and its standards are asked for.
  pub newheader-reveal :
      (key : Text)
      → let m = d.vm.m in
        let mask = js_or (js_or any foerthchen) (m current) in
        is_header name ≡ true
        → same_text (if m casesensitive ==ℤ pos 0 then to_lower_case name else name) key ≡ true
        → share_bit (m context) mask ≡ true
        → share_bit (m compliance) mask ≡ true
        → ((k : Text)
            → forth_search1 to_lower_case k (hidden_header name d)
              ≡ forth_search1 to_lower_case k d)
          × (forth_search1 to_lower_case key (revealed name d) ≡ suc d.wc)
  unfolding forth_search1 search_loop newheader forth_reveal
  newheader-reveal key p q r s = (
    λ k.
        ap (λ b. if b then suc d.wc else search_loop to_lower_case d.wc (hidden_header name d) k)
          (hidden_new k)
        ∙ older_loop (hidden_header name d) k (hidden_older k) d.wc (omega arith),
    ap (λ b. if b then suc d.wc else search_loop to_lower_case d.wc (revealed name d) key)
        (revealed_new key p q r s),
  )
