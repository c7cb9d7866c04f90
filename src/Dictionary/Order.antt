-- ===== src/Dictionary/Order.antt =====
-- The order in which `search` goes through the vocabularies.
use post.Prelude.{
  ℤ, ◌==ℤ◌, update, ℕ, ◌==◌, false, if◌then◌else◌, List, [], ◌∷◌, ◌≡◌, inl, inr, refl, sym, ap, ◌∙◌,
  arith, fun_ext, Bool-cases, ==ℤ_iff, ==_iff,
}
use post.Text.{Text}
use post.Dictionary.{Dictionary, context, search_stack, search_all, forth_search1, set_context}

set_context_twice : (c e : ℤ) (d : Dictionary) → set_context e (set_context c d) ≡ set_context e d
set_context_twice c e d =
    let same : update (update d.vm.m context c) context e ≡ update d.vm.m context e =
      fun_ext (λ j. ground arith) in
    λ i. record d { vm = record (d.vm) { m = same i } }

set_context_self : (d : Dictionary) → set_context (d.vm.m context) d ≡ d
set_context_self d =
    let same : update d.vm.m context (d.vm.m context) ≡ d.vm.m = fun_ext (λ j. ground arith) in
    λ i. record d { vm = record (d.vm) { m = same i } }

module _ (to_lower_case : Text → Text) (name : Text) (d : Dictionary) where
  -- The reference: the first vocabulary of a list in which the name is found decides.
  abbrev pub first_found : List ℤ → ℕ
  first_found [] = 0
  first_found (c ∷ cs) =
      let found = forth_search1 to_lower_case name (set_context c d) in
      let rest = first_found cs in if found == 0 then rest else found

  search_stack-first_found :
      (cs : List ℤ) (c : ℤ)
      → forth_search1 to_lower_case name (set_context c d) ≡ 0
      → search_stack to_lower_case cs name (set_context c d) ≡ first_found cs
  unfolding search_stack
  search_stack-first_found [] c h = refl
  search_stack-first_found (e ∷ es) c h = elim (Bool-cases (c ==ℤ e)) [
    | inl t ↦
        let c_e : c ≡ e = (==ℤ_iff c e).0 t in
        let h' : forth_search1 to_lower_case name (set_context e d) ≡ 0 =
          ap (λ z. forth_search1 to_lower_case name (set_context z d)) (sym c_e) ∙ h in
        rw (t, h') (search_stack-first_found es c h)
    | inr t ↦
        let test : (c ==ℤ e) ≡ false = t in
        let step : search_stack to_lower_case (e ∷ es) name (set_context c d) ≡ (
            let found = forth_search1 to_lower_case name (set_context e d) in
            if found == 0 then search_stack to_lower_case es name (set_context e d) else found) =
          rw (t, set_context_twice c e d) refl in
        let found = forth_search1 to_lower_case name (set_context e d) in
        step ∙ elim (Bool-cases (found == 0)) [
          | inl z ↦ rw z (search_stack-first_found es e ((==_iff found 0).0 z))
          | inr z ↦ rw z refl
        ]
  ]

  -- The search finds what the first vocabulary has that knows the name, of the context vocabulary and then
  -- the vocabulary stack from its top: skipping a vocabulary that was just searched makes no difference.
  pub search_all-first_found :
      search_all to_lower_case name d ≡ first_found (d.vm.m context ∷ d.vocstack)
  unfolding search_all
  search_all-first_found =
      let found = forth_search1 to_lower_case name d in
      let self = set_context_self d in
      let start = λ (h : found ≡ 0).
        ap (λ z. search_stack to_lower_case d.vocstack name z) (sym self)
        ∙ search_stack-first_found d.vocstack (d.vm.m context)
            (ap (forth_search1 to_lower_case name) self ∙ h) in
      rw (set_context_self d) (elim (Bool-cases (found == 0)) [
        | inl z ↦ rw z (start ((==_iff found 0).0 z))
        | inr z ↦ rw z refl
      ])
