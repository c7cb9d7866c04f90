-- ===== src/Text/Cookie.antt =====
-- What a cookie keeps comes back.
use post.Prelude.{
  ℕ, Bool, false, ◌==◌, ◌||◌, Option-cases, none, some, [], ◌∷◌, ◌++◌, take, ◌≡◌, inl, inr, refl,
  arith, ap, ◌∙◌,
}
use mathlib.Core.List.{append_assoc, append-nil}
use post.Text.{
  Text, encoded, escape, translated, translate, decoded, readcookie, setcookie, attribute, strip,
  after_key, before_semicolon,
}

translate-translated : (c d : ℕ) → translated c ≡ some d → translate d ≡ c
unfolding translated translate
translate-translated c d h = ground arith

percent_is_translated : (c : ℕ) → translated c ≡ none → (c == b'%') ≡ false
unfolding translated
percent_is_translated c h = ground arith

decoded-percent : (d : ℕ) (t : Text) → decoded (b'%' ∷ d ∷ t) ≡ translate d ∷ decoded t
unfolding decoded
decoded-percent d t = refl

decoded-plain : (c : ℕ) (t : Text) → (c == b'%') ≡ false → decoded (c ∷ t) ≡ c ∷ decoded t
unfolding decoded
decoded-plain c [] h = rw h
decoded-plain c (d ∷ t) h = rw h

escape-none : (c : ℕ) (t : Text) → translated c ≡ none → escape c t ≡ c ∷ t
unfolding escape
escape-none c t e = rw (e, escape)

escape-some : (c d : ℕ) (t : Text) → translated c ≡ some d → escape c t ≡ b'%' ∷ d ∷ t
unfolding escape
escape-some c d t e = rw (e, escape)

decoded-escape : (c : ℕ) (t : Text) → decoded (escape c t) ≡ c ∷ decoded t
decoded-escape c t = elim (Option-cases (translated c)) [
  | inl e ↦ rw (escape-none c t e) (decoded-plain c t (percent_is_translated c e))
  | inr (d, e) ↦
      rw (escape-some c d t e)
        (decoded-percent d t ∙ ap (λ x. x ∷ decoded t) (translate-translated c d e))
]

-- `decoded` undoes `encoded`, for every text.
pub decoded-encoded : (t : Text) → decoded (encoded t) ≡ t
unfolding encoded
decoded-encoded [] = unfold decoded in refl
decoded-encoded (c ∷ cs) = decoded-escape c (encoded cs) ∙ ap (λ z. c ∷ z) (decoded-encoded cs)

-- The units that would end or spoil a cookie's value: NUL, tab, line ends, blank and semicolon.
abbrev pub is_unsafe : ℕ → Bool
is_unsafe c = c == 0 || (c == 9 || (c == 10 || (c == 13 || (c == 32 || c == b';'))))

abbrev pub AreSafe : Text → Type 0
AreSafe [] = Unit {0}
AreSafe (c ∷ cs) = (is_unsafe c ≡ false) × AreSafe cs

plain_is_safe : (c : ℕ) → translated c ≡ none → is_unsafe c ≡ false
unfolding translated
plain_is_safe c h = ground arith

letter_is_safe : (c d : ℕ) → translated c ≡ some d → is_unsafe d ≡ false
unfolding translated
letter_is_safe c d h = ground arith

escape-AreSafe : (c : ℕ) (t : Text) → AreSafe t → AreSafe (escape c t)
escape-AreSafe c t h = elim (Option-cases (translated c)) [
  | inl e ↦ rw (escape-none c t e) (plain_is_safe c e, h)
  | inr (d, e) ↦ rw (escape-some c d t e) (refl, (letter_is_safe c d e, h))
]

-- An encoded text has no NUL, tab, line end, blank or semicolon.
pub encoded-AreSafe : (t : Text) → AreSafe (encoded t)
unfolding encoded
encoded-AreSafe [] = tt
encoded-AreSafe (c ∷ cs) = escape-AreSafe c (encoded cs) (encoded-AreSafe cs)

-- What follows a cookie in `document.cookie`: nothing, or a semicolon and more.
pub data Rest : Text → Type 0 where
  none_left : Rest []
  more_cookies : (t : Text) → Rest (b';' ∷ t)

before_semicolon-append : (t rest : Text) → AreSafe t → Rest rest → before_semicolon (t ++ rest) ≡ t
unfolding before_semicolon
before_semicolon-append [] _ h none_left = refl
before_semicolon-append [] _ h (more_cookies r) = refl
before_semicolon-append (c ∷ cs) rest h r =
    let plain : (c == b';') ≡ false = ground arith in
    rw (plain, before_semicolon) (ap (λ z. c ∷ z) (before_semicolon-append cs rest h.1 r))

strip-append : (p t : Text) → strip p (p ++ t) ≡ some t
unfolding strip
strip-append [] t = refl
strip-append (c ∷ cs) t = ground (arith, strip-append cs t)

after_key-strip : (key t rest : Text) → strip key t ≡ some rest → after_key key t ≡ some rest
unfolding after_key
after_key-strip key [] rest h = h
after_key-strip key (c ∷ cs) rest h = rw (h, after_key)

readcookie-after :
    (document name temp : Text)
    → after_key (name ++ b'=' ∷ []) document ≡ some temp
    → readcookie document name ≡ some (decoded (before_semicolon temp))
unfolding readcookie
readcookie-after document name temp h = rw (h, readcookie)

-- Reading a cookie by its name gives the first 2048 units of the value that `setcookie` was called
-- with, where `document.cookie` begins with what it assigned, cut off before the attributes or not,
-- and other cookies follow.
pub readcookie-setcookie :
    (dl el pl sl name value rest : Text)
    → Rest rest
    → readcookie (setcookie dl el pl sl name value none none none none ++ rest) name
      ≡ some (take 2048 value)
unfolding setcookie attribute
readcookie-setcookie dl el pl sl name value rest r =
    let key = name ++ b'=' ∷ [] in
    let kept = encoded (take 2048 value) in
    let text = setcookie dl el pl sl name value none none none none ++ rest in
    let shape : text ≡ key ++ (kept ++ rest) =
      ap (λ z. (key ++ z) ++ rest) (append-nil kept) ∙ append_assoc key kept rest in
    let found : after_key key text ≡ some (kept ++ rest) =
      ap (after_key key) shape
      ∙ after_key-strip key (key ++ (kept ++ rest)) (kept ++ rest)
          (strip-append key (kept ++ rest)) in
    readcookie-after text name (kept ++ rest) found
    ∙ ap (λ z. some (decoded z))
        (before_semicolon-append kept rest (encoded-AreSafe (take 2048 value)) r)
    ∙ ap some (decoded-encoded (take 2048 value))
