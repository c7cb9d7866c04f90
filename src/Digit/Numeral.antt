-- ===== src/Digit/Numeral.antt =====
-- The numbers that `?number` reads, without its test for a point.
use native.Mathlib.Nat.{le-mul_of_pos_right}
use post.Prelude.{
  ℤ, pos, negsuc, ◌+ℤ◌, ◌-ℤ◌, ◌==ℤ◌, ltb_ℤ, leb_ℤ, Store, update, ℕ, suc, ◌+◌, ◌*◌, ◌^◌, ◌<◌, ◌≤◌,
  Bool, true, false, ◌&&◌, some, List, [], ◌∷◌, length, if◌then◌else◌, ◌≡◌, pos_mul, refl, arith,
  ap, ◌∙◌,
}
use post.Number.{js_sub, js_add, js_mul, to_int32, round_double}
use post.Number.Bits.{js_and-ones}
use post.Number.Round.{js_sub-small, js_add-small, round_double-small}
use post.Vm.{Vm, inc, dec}
use post.Digit.{
  base, skip_to_small, Reading, number_loop, finish, single_number, sign_of, forth_qsinglenumber,
}
use post.Digit.Value.{value}
use post.Stack.View.{stack, top_at, under_at, retop_at, set_under_at, stack_at}

-- The characters from `w` on are those of the text.
unfoldable pub Reads : Store → ℤ → List ℕ → Type 0
Reads m w [] = Unit {0}
Reads m w (c ∷ cs) = (m w ≡ pos c) × Reads m (inc w) cs

-- The text is that of the digits of a base.
unfoldable pub Digits : ℕ → List ℕ → List ℕ → Type 0
Digits b [] [] = Unit {0}
Digits b [] (d ∷ ds) = ⊥
Digits b (c ∷ cs) [] = ⊥
Digits b (c ∷ cs) (d ∷ ds) = (value c ≡ some d) × (d < b) × Digits b cs ds

-- The number that digits stand for, behind one that was read before.
unfoldable pub positional : (b acc : ℕ) → List ℕ → ℕ
positional b acc [] = acc
positional b acc (d ∷ ds) = positional b (acc * b + d) ds

mul-exact : (a b : ℕ) → a * b < 2 ^ 53 → js_mul (pos a) (pos b) ≡ pos (a * b)
unfolding js_mul
mul-exact a b h =
    ap round_double (pos_mul a b) ∙ round_double-small (pos (a * b)) (ground (arith, h))

add_exact : (a d : ℕ) → a + d < 2 ^ 53 → js_add (pos a) (pos d) ≡ pos (a + d)
add_exact a d h = js_add-small (pos a) (pos d) (ground arith) ∙ ground arith

inc-add : (w : ℤ) (n : ℕ) → inc w +ℤ pos n ≡ w +ℤ pos (suc n)
inc-add w n = ground arith

le_times : (a b : ℕ) → 1 ≤ b → a ≤ a * b
le_times a b h = le-mul_of_pos_right a h

positional_le : (b acc : ℕ) (ds : List ℕ) → 1 ≤ b → acc ≤ positional b acc ds
unfolding positional
positional_le b acc [] h = omega arith
positional_le b acc (d ∷ ds) h = omega (arith, le_times acc b h, positional_le b (acc * b + d) ds h)

code_small : (c d : ℕ) → value c ≡ some d → c < 128
code_small c d h = ground arith

digit_code :
    (b c d : ℕ) → b ≤ 36 → value c ≡ some d → d < b → js_sub (pos c) (pos 48) ≡ pos c -ℤ pos 48
digit_code b c d small e lt = js_sub-small (pos c) (pos 48) (ground arith)

-- What the steps of the loop make of a digit's character.
digit_step :
    (b c d : ℕ)
    → b ≤ 36
    → value c ≡ some d
    → d < b
    → let t = pos c -ℤ pos 48 in
      ((ltb_ℤ (pos 9) t && ltb_ℤ t (pos 17)) ≡ false)
      × (skip_to_small (if ltb_ℤ (pos 9) t then js_sub t (pos 7) else t) ≡ pos d)
digit_step b c d small e lt =
    let c_small = code_small c d e in
    let t = pos c -ℤ pos 48 in
    let seven : js_sub t (pos 7) ≡ t -ℤ pos 7 = js_sub-small t (pos 7) (ground arith) in
    let big : js_sub (t -ℤ pos 7) (pos 32) ≡ t -ℤ pos 7 -ℤ pos 32 =
      js_sub-small (t -ℤ pos 7) (pos 32) (ground arith) in
    (ground arith, rw seven (ground (arith, big)))

-- The loop reads a text of digits whole.
number_loop-Digits :
    (b : ℕ) (m : Store) (cs ds : List ℕ) (w : ℤ) (acc : ℕ)
    → 1 ≤ b
    → b ≤ 36
    → Reads m w cs
    → Digits b cs ds
    → positional b acc ds < 2 ^ 53
    → number_loop (length cs) m (pos b) w (pos acc)
      ≡ record { valid = true; number = pos (positional b acc ds); next = w +ℤ pos (length cs) }
unfolding number_loop Reads Digits positional
number_loop-Digits b m [] [] w acc one small r h lt =
    ap (λ z. record { valid = true; number = pos acc; next = z }) (ground arith)
number_loop-Digits b m [] (d ∷ ds) w acc one small r h lt = absurd h
number_loop-Digits b m (c ∷ cs) [] w acc one small r h lt = absurd h
number_loop-Digits b m (c ∷ cs) (d ∷ ds) w acc one small (here, r) (e, below, h) lt =
    let next = acc * b + d in
    let le = positional_le b next ds one in
    let (gap, digit) = digit_step b c d small e below in
    let mul = mul-exact acc b (omega arith) in
    let add : js_add (pos (acc * b)) (pos d) ≡ pos next =
      add_exact (acc * b) d (omega (arith, le, lt)) in
    let low : ltb_ℤ (pos d) (pos 0) ≡ false = ground arith in
    let high : leb_ℤ (pos b) (pos d) ≡ false = ground arith in
    let rest = number_loop-Digits b m cs ds (inc w) next one small r h lt in
    rw (number_loop, here, digit_code b c d small e below, gap, digit, low, high, mul, add, rest)
      (ap (λ z. record { valid = true; number = pos (positional b next ds); next = z })
        (inc-add w (length cs)))

-- The text of a number of at least one digit.
unfoldable pub numeral : Bool → ℕ → List ℕ → List ℕ
numeral true c cs = 45 ∷ c ∷ cs
numeral false c cs = c ∷ cs

-- Its value.
abbrev pub signed : Bool → ℕ → ℤ
signed neg n = if neg then pos 0 -ℤ pos n else pos n

digit_sign : (c d : ℕ) → value c ≡ some d → (pos c ==ℤ pos 45) ≡ false
digit_sign c d e = ground arith

-- What is left of the stack where the loop read `r`.
finished :
    (v : Vm) (i : ℕ) (a : ℤ) (xs : List ℤ) (neg : Bool) (w : ℤ) (n : ℕ) (r : Reading)
    → stack v ≡ some (pos i ∷ a ∷ xs)
    → r ≡ record { valid = true; number = pos n; next = w }
    → stack (finish neg r v) ≡ some (negsuc 0 ∷ to_int32 (signed neg n) ∷ xs)
unfolding finish
finished v i a xs neg w n r h e =
    rw (finish, e)
      (ap (λ y. stack_at (negsuc 0) (update v.s v.sp y) v.sp) (js_and-ones (signed neg n))
        ∙ retop_at v.tos (update v.s v.sp (to_int32 (signed neg n))) v.sp (pos i)
            (to_int32 (signed neg n) ∷ xs) (negsuc 0)
            (set_under_at v.tos v.s v.sp (pos i) a xs (to_int32 (signed neg n)) h))

reads_text :
    (v : Vm) (sign : Bool) (i b : ℕ) (a : ℤ)
    → v.s v.sp ≡ a
    → sign_of v.m a ≡ sign
    → (if sign then dec v.tos else v.tos) ≡ pos i
    → v.m base ≡ pos b
    → forth_qsinglenumber v
      ≡ some (finish sign (number_loop i v.m (pos b) (if sign then inc a else a) (pos 0)) v)
unfolding forth_qsinglenumber single_number
reads_text v sign i b a start minus count radix =
    let digits = λ (c : ℤ). if sign then inc c else c in
    ap
      (λ t.
        single_number t (if t then inc (v.s v.sp) else v.s v.sp) (if t then dec v.tos else v.tos) v)
      (ap (sign_of v.m) start ∙ minus)
    ∙ ap (λ c. single_number sign (digits c) (if sign then dec v.tos else v.tos) v) start
    ∙ ap (λ n. single_number sign (digits a) n v) count
    ∙ ap (λ r. some (finish sign (number_loop i v.m r (digits a) (pos 0)) v)) radix

-- The number of a text of digits, with `-` before them or without, is left as a 32-bit integer beneath
-- -1, in a base up to 36, where the digits stand for less than 2^53.
pub qsinglenumber-positional :
    (v : Vm) (neg : Bool) (b c d : ℕ) (cs ds : List ℕ) (a : ℤ) (xs : List ℤ)
    → 1 ≤ b
    → b ≤ 36
    → v.m base ≡ pos b
    → Reads v.m a (numeral neg c cs)
    → Digits b (c ∷ cs) (d ∷ ds)
    → positional b 0 (d ∷ ds) < 2 ^ 53
    → stack v ≡ some (pos (length (numeral neg c cs)) ∷ a ∷ xs)
    → (v' : Vm) × (forth_qsinglenumber v ≡ some v')
      × (stack v' ≡ some (negsuc 0 ∷ to_int32 (signed neg (positional b 0 (d ∷ ds))) ∷ xs))
unfolding numeral Reads Digits
qsinglenumber-positional v false b c d cs ds a xs one small radix r digits lt h =
    let count = top_at v.tos v.s v.sp (pos (length (c ∷ cs))) (a ∷ xs) h in
    let start = under_at v.tos v.s v.sp (pos (length (c ∷ cs))) a xs h in
    let sign : sign_of v.m a ≡ false = rw (r.0) (digit_sign c d digits.0) in
    let read = number_loop-Digits b v.m (c ∷ cs) (d ∷ ds) a 0 one small r digits lt in
    (
      finish false (number_loop (length (c ∷ cs)) v.m (pos b) a (pos 0)) v,
      reads_text v false (length (c ∷ cs)) b a start sign count radix,
      finished v _ a xs false _ _ _ h read,
    )
qsinglenumber-positional v true b c d cs ds a xs one small radix r digits lt h =
    let count = top_at v.tos v.s v.sp (pos (length (45 ∷ c ∷ cs))) (a ∷ xs) h in
    let start = under_at v.tos v.s v.sp (pos (length (45 ∷ c ∷ cs))) a xs h in
    let sign : sign_of v.m a ≡ true = rw (r.0) refl in
    let left : dec (pos (length (45 ∷ c ∷ cs))) ≡ pos (length (c ∷ cs)) = ground arith in
    let read = number_loop-Digits b v.m (c ∷ cs) (d ∷ ds) (inc a) 0 one small r.1 digits lt in
    (
      finish true (number_loop (length (c ∷ cs)) v.m (pos b) (inc a) (pos 0)) v,
      reads_text v true (length (c ∷ cs)) b a start sign (ap dec count ∙ left) radix,
      finished v _ a xs true _ _ _ h read,
    )
