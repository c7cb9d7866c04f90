-- ===== src/Terminal/Wrap.antt =====
-- How `type` breaks lines.
use post.Prelude.{
  ℕ, zero, suc, ◌-◌, ◌≤◌, ltb, leb, Bool-cases, if◌then◌else◌, List, [], ◌∷◌, ◌++◌, map, length,
  length-append, take, drop, ◌≡◌, refl, inl, inr, ap, sym, ◌∙◌, arith,
}
use mathlib.Core.Path.{ap₂}
use post.Text.{Text}
use post.Terminal.{Screen, at, modify, linelen, lines, scroll, scrolled, break_line, type_loop}

-- The screen of some lines and a last one.
abbrev pub screen : List Text → Text → Screen
screen init last = record {
  terminal = init ++ last ∷ [];
  charsperline = map length (init ++ last ∷ []);
  linesonscreen = suc (length init);
}

-- The reference: the lines that the last one is broken into.
abbrev pub shifted : List Text → List Text
shifted init = if leb lines (length init) then drop 1 init else init

unfoldable pub wrap : ℕ → List Text → Text → Screen
wrap zero init last = screen init last
wrap (suc fuel) init last =
    let rest = wrap fuel (shifted init ++ take linelen last ∷ []) (drop linelen last) in
    if ltb linelen (length last) then rest else screen init last

pub at-append : {A : Type 0} (d : A) (xs : List A) (x : A) → at d (xs ++ x ∷ []) (length xs) ≡ x
at-append d [] x = refl
at-append d (y ∷ xs) x = at-append d xs x

modify-append :
    {A : Type 0} (f : A → A) (xs : List A) (x y : A)
    → modify f (length xs) ((xs ++ x ∷ []) ++ y ∷ []) ≡ (xs ++ f x ∷ []) ++ y ∷ []
modify-append f [] x y = refl
modify-append f (z ∷ xs) x y = ap (λ zs. z ∷ zs) (modify-append f xs x y)

pub modify-last :
    {A : Type 0} (f : A → A) (xs : List A) (x : A)
    → modify f (length xs) (xs ++ x ∷ []) ≡ xs ++ f x ∷ []
modify-last f [] x = refl
modify-last f (z ∷ xs) x = ap (λ zs. z ∷ zs) (modify-last f xs x)

map-append : {A B : Type 0} (f : A → B) (xs ys : List A) → map f (xs ++ ys) ≡ map f xs ++ map f ys
map-append f [] ys = refl
map-append f (x ∷ xs) ys = ap (λ zs. f x ∷ zs) (map-append f xs ys)

pub length-map : {A B : Type 0} (f : A → B) (xs : List A) → length (map f xs) ≡ length xs
length-map f [] = refl
length-map f (x ∷ xs) = ap suc (length-map f xs)

pub length-drop : (n : ℕ) (t : Text) → length (drop n t) ≡ length t - n
length-drop zero t = omega arith
length-drop (suc n) [] = omega arith
length-drop (suc n) (c ∷ cs) = length-drop n cs ∙ omega arith

pub length-take : (n : ℕ) (t : Text) → n ≤ length t → length (take n t) ≡ n
length-take zero t h = refl
length-take (suc n) [] h = absurd (omega arith)
length-take (suc n) (c ∷ cs) h = ap suc (length-take n cs (omega arith))

pub take-drop : (n : ℕ) (t : Text) → take n t ++ drop n t ≡ t
take-drop zero t = refl
take-drop (suc n) [] = refl
take-drop (suc n) (c ∷ cs) = ap (λ t. c ∷ t) (take-drop n cs)

-- The arrays in the loop; `linesonscreen` is set when it ends.
abbrev pub in_loop : ℕ → List Text → Text → Screen
in_loop k init last = record (screen init last) { linesonscreen = k }

pub counts-append :
    (init : List Text) (last : Text)
    → map length (init ++ last ∷ []) ≡ map length init ++ length last ∷ []
counts-append init last = map-append length init (last ∷ [])

broken_lines :
    (init : List Text) (last : Text)
    → modify
        (take linelen)
        (length init)
        ((init ++ last ∷ []) ++ drop linelen (at [] (init ++ last ∷ []) (length init)) ∷ [])
      ≡ (init ++ take linelen last ∷ []) ++ drop linelen last ∷ []
broken_lines init last =
    ap (λ t. modify (take linelen) (length init) ((init ++ last ∷ []) ++ drop linelen t ∷ []))
      (at-append [] init last)
    ∙ modify-append (take linelen) init last (drop linelen last)

broken_counts :
    (init : List Text) (last : Text)
    → linelen ≤ length last
    → modify
        (λ n. linelen)
        (length init)
        (map length (init ++ last ∷ [])
          ++ (at 0 (map length (init ++ last ∷ [])) (length init) - linelen) ∷ [])
      ≡ map length ((init ++ take linelen last ∷ []) ++ drop linelen last ∷ [])
broken_counts init last h =
    let counts = map length init in
    let size = length-map length init in
    ap (λ cs. modify (λ n. linelen) (length init) (cs ++ (at 0 cs (length init) - linelen) ∷ []))
      (counts-append init last)
    ∙ ap
        (λ k.
          modify (λ n. linelen) k
            ((counts ++ length last ∷ []) ++ (at 0 (counts ++ length last ∷ []) k - linelen) ∷ []))
        (sym size)
    ∙ ap
        (λ n.
          modify (λ n. linelen) (length counts)
            ((counts ++ length last ∷ []) ++ (n - linelen) ∷ []))
        (at-append 0 counts (length last))
    ∙ modify-append (λ n. linelen) counts (length last) (length last - linelen)
    ∙ ap₂ (λ a b. (counts ++ a ∷ []) ++ b ∷ []) (sym (length-take linelen last h))
        (sym (length-drop linelen last))
    ∙ ap (λ cs. cs ++ length (drop linelen last) ∷ [])
        (sym (counts-append init (take linelen last)))
    ∙ sym (counts-append (init ++ take linelen last ∷ []) (drop linelen last))

-- A round of the loop breaks the last line.
break-screen :
    (k : ℕ) (init : List Text) (last : Text)
    → linelen ≤ length last
    → break_line (length init) (in_loop k init last)
      ≡ in_loop k (init ++ take linelen last ∷ []) (drop linelen last)
break-screen k init last h = λ i. record {
  terminal = broken_lines init last i;
  charsperline = broken_counts init last h i;
  linesonscreen = k;
}

scroll-screen :
    (k : ℕ) (init : List Text) (last : Text)
    → (scroll (length init) (in_loop k init last) ≡ in_loop k (shifted init) last)
      × (scrolled (length init) ≡ length (shifted init))
scroll-screen k [] last = (refl, refl)
scroll-screen k (y ∷ ys) last = elim (Bool-cases (leb lines (length (y ∷ ys)))) [
  | inl e ↦ rw e (refl, omega arith)
  | inr e ↦ rw e (refl, refl)
]

pub last_count :
    (init : List Text) (last : Text)
    → at 0 (map length (init ++ last ∷ [])) (length init) ≡ length last
last_count init last =
    let counts = map length init in
    ap (λ cs. at 0 cs (length init)) (counts-append init last)
    ∙ ap (at 0 (counts ++ length last ∷ [])) (sym (length-map length init))
    ∙ at-append 0 counts (length last)

pub loop-wrap :
    (fuel k : ℕ) (init : List Text) (last : Text)
    → type_loop fuel (length init) (in_loop k init last) ≡ wrap fuel init last
unfolding type_loop wrap
loop-wrap zero k init last = refl
loop-wrap (suc fuel) k init last = elim (Bool-cases (ltb linelen (length last))) [
  | inr e ↦ rw (last_count init last, e) refl
  | inl e ↦
      let kept = shifted init in
      let first = take linelen last in
      let next = drop linelen last in
      let (on_screen, place) = scroll-screen k init last in
      let count : suc (length kept) ≡ length (kept ++ first ∷ []) =
        omega (arith, length-append kept (first ∷ [])) in
      rw (last_count init last, e)
        (ap₂ (λ p t. type_loop fuel (suc p) (break_line p t)) place on_screen
          ∙ ap (type_loop fuel (suc (length kept))) (break-screen k kept last (ground arith))
          ∙ ap (λ n. type_loop fuel n (in_loop k (kept ++ first ∷ []) next)) count
          ∙ loop-wrap fuel k (kept ++ first ∷ []) next)
]
