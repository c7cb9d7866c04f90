-- ===== src/Terminal/Typed.antt =====
-- What `type` leaves on the screen.
use post.Prelude.{
  ℕ, zero, suc, ◌+◌, ◌-◌, ◌≤◌, ltb, leb, Bool-cases, if◌then◌else◌, List, [], ◌∷◌, ◌++◌, map,
  length, length-append, take, drop, ◌≡◌, refl, inl, inr, ap, sym, ◌∙◌, arith,
}
use mathlib.Core.List.{append_assoc, append-nil}
use mathlib.Core.Path.{subst}
use post.Text.{Text}
use post.Terminal.{Screen, modify, linelen, lines, type}
use post.Terminal.Wrap.{
  screen, shifted, wrap, modify-last, length-drop, length-take, take-drop, last_count, loop-wrap,
  length-map, counts-append,
}

-- The text of some lines.
abbrev pub joined : List Text → Text
joined [] = []
joined (l ∷ ls) = l ++ joined ls

abbrev pub AreShort : List Text → Type 0
AreShort [] = Unit {0}
AreShort (l ∷ ls) = (length l ≤ linelen) × AreShort ls

-- The counters agree with the lines, no line is longer than the terminal is wide, and there is one line
-- more than the terminal has at most.
pub record IsScreen (t : Screen) : Type 0 where
  pub counted : t.charsperline ≡ map length t.terminal
  pub numbered : t.linesonscreen ≡ length t.terminal
  pub short : AreShort t.terminal
  pub few : length t.terminal ≤ suc lines

-- The lines hold the text, but for what went off the screen at the top.
abbrev pub Shows : Screen → Text → Type 0
Shows t text = (gone : Text) × (gone ++ joined t.terminal ≡ text)

AreShort-append :
    (ls : List Text) (l : Text) → AreShort ls → length l ≤ linelen → AreShort (ls ++ l ∷ [])
AreShort-append [] l h k = (k, tt)
AreShort-append (x ∷ ls) l (h, hs) k = (h, AreShort-append ls l hs k)

joined-append : (ls ks : List Text) → joined (ls ++ ks) ≡ joined ls ++ joined ks
joined-append [] ks = refl
joined-append (l ∷ ls) ks =
    ap (λ t. l ++ t) (joined-append ls ks) ∙ sym (append_assoc l (joined ls) (joined ks))

-- What is left of the lines when there is no room for one more.
shifted-lines :
    (init : List Text)
    → AreShort init
    → length init ≤ lines
    → AreShort (shifted init)
      × (suc (length (shifted init)) ≤ lines)
      × ((gone : Text) × (gone ++ joined (shifted init) ≡ joined init))
shifted-lines [] h k = (tt, omega arith, ([], refl))
shifted-lines (y ∷ ys) h k = elim (Bool-cases (leb lines (length (y ∷ ys)))) [
  | inl e ↦ rw e (h.1, omega arith, (y, refl))
  | inr e ↦ rw e (h, ground arith, ([], refl))
]

joined-last : (ls : List Text) (l : Text) → joined (ls ++ l ∷ []) ≡ joined ls ++ l
joined-last ls l = joined-append ls (l ∷ []) ∙ ap (λ t. joined ls ++ t) (append-nil l)

-- A last line that fits stays as it is.
fitting :
    (init : List Text) (last : Text)
    → AreShort init
    → length init ≤ lines
    → length last ≤ linelen
    → IsScreen (screen init last) × Shows (screen init last) (joined init ++ last)
fitting init last h k l = (
  record {
    counted = refl;
    numbered = omega (arith, length-append init (last ∷ []));
    short = AreShort-append init last h l;
    few = omega (arith, length-append init (last ∷ []));
  },
  ([], joined-last init last),
)

-- What is gone in two steps.
Shows-trans :
    (first second kept all rest text tail : Text)
    → first ++ kept ≡ all
    → second ++ rest ≡ kept ++ tail
    → text ≡ all ++ tail
    → (first ++ second) ++ rest ≡ text
Shows-trans first second kept all rest text tail p q r =
    append_assoc first second rest
    ∙ ap (λ t. first ++ t) q
    ∙ sym (append_assoc first kept tail)
    ∙ ap (λ t. t ++ tail) p
    ∙ sym r

wrap-IsScreen :
    (fuel : ℕ) (init : List Text) (last : Text)
    → length last ≤ fuel
    → AreShort init
    → length init ≤ lines
    → IsScreen (wrap fuel init last) × Shows (wrap fuel init last) (joined init ++ last)
unfolding wrap
wrap-IsScreen zero init last l h k = fitting init last h k (omega (arith, l))
wrap-IsScreen (suc fuel) init last l h k = elim (Bool-cases (ltb linelen (length last))) [
  | inr e ↦ rw e (fitting init last h k (ground arith))
  | inl e ↦
      let kept = shifted init in
      let first = take linelen last in
      let next = drop linelen last in
      let (short, room, (gone, p)) = shifted-lines init h k in
      let size : length first ≡ linelen = length-take linelen last (ground arith) in
      let (good, (more, q)) =
        wrap-IsScreen fuel (kept ++ first ∷ []) next (omega (arith, length-drop linelen last))
          (AreShort-append kept first short (omega (arith, size)))
          (omega (arith, length-append kept (first ∷ []))) in
      let whole : joined (kept ++ first ∷ []) ++ next ≡ joined kept ++ last =
        ap (λ t. t ++ next) (joined-last kept first)
        ∙ append_assoc (joined kept) first next
        ∙ ap (λ t. joined kept ++ t) (take-drop linelen last) in
      rw e (
        good,
        (
          gone ++ more,
          Shows-trans gone more (joined kept) (joined init) _ (joined init ++ last) last p
              (q ∙ whole) refl,
        ),
      )
]

snoc :
    (ls : List Text) → 1 ≤ length ls → (init : List Text) × (last : Text) × (ls ≡ init ++ last ∷ [])
snoc [] h = absurd (omega (arith, h))
snoc (l ∷ []) h = ([], l, refl)
snoc (l ∷ k ∷ ls) h =
    let (init, last, e) = snoc (k ∷ ls) (omega arith) in (l ∷ init, last, ap (λ t. l ∷ t) e)

AreShort-last : (init : List Text) (last : Text) → AreShort (init ++ last ∷ []) → AreShort init
AreShort-last [] last h = tt
AreShort-last (l ∷ init) last (h, hs) = (h, AreShort-last init last hs)

-- A screen whose counters agree with its lines is given by them.
same_screen :
    (t : Screen) (init : List Text) (last : Text)
    → IsScreen t
    → t.terminal ≡ init ++ last ∷ []
    → t ≡ screen init last
same_screen t init last good e =
    let count : t.linesonscreen ≡ suc (length init) =
      good.numbered ∙ ap length e ∙ omega (arith, length-append init (last ∷ [])) in
    λ i. record {
      terminal = e i;
      charsperline = (good.counted ∙ ap (map length) e) i;
      linesonscreen = count i;
    }

added_counts :
    (init : List Text) (last string : Text)
    → modify (λ n. n + length string) (length init) (map length (init ++ last ∷ []))
      ≡ map length (init ++ (last ++ string) ∷ [])
added_counts init last string =
    let counts = map length init in
    let f = λ (n : ℕ). n + length string in
    ap (modify f (length init)) (counts-append init last)
    ∙ ap (λ k. modify f k (counts ++ length last ∷ [])) (sym (length-map length init))
    ∙ modify-last f counts (length last)
    ∙ ap (λ n. counts ++ n ∷ []) (sym (length-append last string))
    ∙ sym (counts-append init (last ++ string))

-- The text goes to the last line, which is then broken if it is too long.
type-wrap :
    (string : Text) (init : List Text) (last : Text)
    → type string (screen init last) ≡ (
        let line = last ++ string in
        if leb (length line) linelen then screen init line else wrap (length line) init line)
unfolding type
type-wrap string init last =
    let line = last ++ string in
    let i : suc (length init) - 1 ≡ length init = omega arith in
    let k = suc (length init) in
    rw
      (
        i,
        modify-last (λ l. l ++ string) init last,
        added_counts init last string,
        last_count init line,
      )
      (ap (λ t. if leb (length line) linelen then screen init line else t)
        (loop-wrap (length line) k init line))

-- What the line that the text was added to becomes.
line-IsScreen :
    (init : List Text) (line : Text)
    → AreShort init
    → length init ≤ lines
    → let t =
        if leb (length line) linelen then screen init line else wrap (length line) init line in
      IsScreen t × Shows t (joined init ++ line)
line-IsScreen init line h k = elim (Bool-cases (leb (length line) linelen)) [
  | inl e ↦ rw e (fitting init line h k (ground arith))
  | inr e ↦ rw e (wrap-IsScreen (length line) init line (omega arith) h k)
]

-- `type` loses no text but what goes off the screen at the top, leaves no line longer than the terminal is
-- wide, and keeps the counters of lines and characters, with one line more than the terminal has at most.
pub type-IsScreen :
    (string : Text) (t : Screen)
    → IsScreen t
    → 1 ≤ t.linesonscreen
    → IsScreen (type string t) × Shows (type string t) (joined t.terminal ++ string)
type-IsScreen string t good some_line =
    let (init, last, e) = snoc t.terminal (omega (arith, good.numbered)) in
    let line = last ++ string in
    let short = AreShort-last init last (subst AreShort e good.short) in
    let few : length init ≤ lines =
      omega (arith, good.few, ap length e, length-append init (last ∷ [])) in
    let text : joined init ++ line ≡ joined (init ++ last ∷ []) ++ string =
      sym
        (ap (λ z. z ++ string) (joined-last init last) ∙ append_assoc (joined init) last string) in
    rw (same_screen t init last good e, type-wrap string init last)
      (subst
        (λ z.
          IsScreen
            (if leb (length line) linelen then screen init line else wrap (length line) init line)
          × Shows
              (if leb (length line) linelen then screen init line else wrap (length line) init line)
              z)
        text (line-IsScreen init line short few))
