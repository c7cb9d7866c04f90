-- ===== src/Text.antt =====
-- Texts in memory, and the cookies that keep texts, of reference/jsforth.js. A text is the list of its
-- UTF-16 units; a text in memory takes one cell for each.
pub mod Pack
pub mod Cookie
pub mod Literal
mod Tests
use post.Prelude.{
  ℤ, pos, negsuc, ◌+ℤ◌, Store, update, ℕ, zero, suc, ◌-◌, ◌%◌, Bool, if◌then◌else◌, ◌==◌, Option,
  none, some, List, [], ◌∷◌, ◌++◌, take,
}
use post.Vm.{inc}

abbrev pub Text : Type 0
Text = List ℕ

-- The unit that `String.fromCharCode` makes of a number.
abbrev pub char_code : ℤ → ℕ
char_code (pos n) = n % 65536
char_code (negsuc n) = 65535 - n % 65536

-- `for ( var i=n ; i ; i-- ) w += String.fromCharCode(m[a++])`
unfoldable pub pack : Store → ℤ → ℕ → Text
pack m a zero = []
pack m a (suc n) = char_code (m a) ∷ pack m (inc a) n

-- Writes the units from the last to the first.
unfoldable pub unpackstring : Text → ℤ → Store → Store
unpackstring [] address m = m
unpackstring (c ∷ cs) address m = update (unpackstring cs (inc address) m) address (pos c)

-- `translatedchar`: the letter for each unit that a cookie cannot hold, and for `%`.
pub translated : ℕ → Option ℕ
translated c =
    if c == 0
    then some b'A'
    else if c == 9
    then some b'B'
    else if c == 10
    then some b'C'
    else if c == 13
    then some b'D'
    else if c == 32
    then some b'E'
    else if c == b'%'
    then some b'F'
    else if c == b';'
    then some b'G'
    else none

-- `String.fromCharCode(translatechar[d - 65])`; outside the table it makes the unit 0.
pub translate : ℕ → ℕ
translate d =
    if d == b'A'
    then 0
    else if d == b'B'
    then 9
    else if d == b'C'
    then 10
    else if d == b'D'
    then 13
    else if d == b'E'
    then 32
    else if d == b'F'
    then b'%'
    else if d == b'G'
    then b';'
    else 0

escape : ℕ → Text → Text
escape c rest = elim (translated c) [ none ↦ c ∷ rest | some d ↦ b'%' ∷ d ∷ rest ]

pub encoded : Text → Text
unfolding escape translated
encoded [] = []
encoded (c ∷ cs) = escape c (encoded cs)

pub decoded : Text → Text
unfolding translate
decoded [] = []
decoded (c ∷ []) = if c == b'%' then 0 ∷ [] else c ∷ []
decoded (c ∷ d ∷ rest) =
    let after = decoded rest in
    let next = decoded (d ∷ rest) in if c == b'%' then translate d ∷ after else c ∷ next

-- What an argument that may be missing adds to a cookie.
attribute : Text → Option Text → Text → Text
attribute label none value = []
attribute label (some []) value = []
attribute label (some (c ∷ cs)) value = label ++ value

abbrev or_empty : Option Text → Text
or_empty none = []
or_empty (some t) = t

-- The text that `setcookie` assigns to `document.cookie`; the labels are `; domain=` and so on. The
-- source writes the domain behind the labels of the path and of `secure` too.
pub setcookie :
    (domain_label expires_label path_label secure_label : Text)
    → (name value : Text) → (domain expires path secure : Option Text) → Text
unfolding encoded attribute
setcookie dl el pl sl name value domain expires path secure =
    (name ++ b'=' ∷ [])
    ++ (encoded (take 2048 value)
        ++ (attribute dl domain (or_empty domain)
            ++ (attribute el expires (or_empty expires)
                ++ (attribute pl path (or_empty domain) ++ attribute sl secure (or_empty domain)))))

strip : Text → Text → Option Text
strip [] text = some text
strip (p ∷ ps) [] = none
strip (p ∷ ps) (c ∷ cs) = let rest = strip ps cs in if p == c then rest else none

-- The text after the first occurrence of the key: `substr` at `indexOf` and the key's length.
after_key : Text → Text → Option Text
unfolding strip
after_key key [] = strip key []
after_key key (c ∷ cs) =
    let later = after_key key cs in
    elim (strip key (c ∷ cs)) [ some rest ↦ some rest | none ↦ later ]

-- `temp.substr(0, temp.indexOf(";"))`, or all of it.
before_semicolon : Text → Text
before_semicolon [] = []
before_semicolon (c ∷ cs) = let rest = before_semicolon cs in if c == b';' then [] else c ∷ rest

-- `document` is what `document.cookie` reads as; `none` stands for `null`.
pub readcookie : Text → Text → Option Text
unfolding decoded after_key before_semicolon
readcookie document name = elim (after_key (name ++ b'=' ∷ []) document) [
  | none ↦ none
  | some temp ↦ some (decoded (before_semicolon temp))
]
