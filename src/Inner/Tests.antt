-- ===== src/Inner/Tests.antt =====
-- A countdown, `BEGIN DUP WHILE 1- REPEAT`, from 2, compiled and run by the inner interpreter; and a word
-- with this body that is called.
use post.Prelude.{
  ℤ, pos, update, update_ne, update_self, ◌==ℤ◌, List, [], ◌∷◌, if◌then◌else◌, ◌≡◌, ◌≢◌, refl, ap,
  ◌∙◌, sym, arith, true, false, suc, ℕ, ◌+◌, some,
}
use post.Number.{js_sub}
use post.Number.Round.{js_sub-small}
use post.Fixture.{blank, addresses}
use post.Vm.{Vm, push, pop, rpush, inc, dec}
use post.Stack.{forth_dup}
use post.Arith.{forth_1minus}
use post.Throw.{forth_nest, forth_unnest}
use post.Flow.{forth_branch, forth_0branch, forth_brdo, forth_brloop, forth_dolit}
use post.Flow.Compile.{Tokens}
use post.Words.{
  Token, Item, Colon, compile_colon, compile, token, number, op_begin, op_while, op_repeat,
  compile_items, x_dup, x_1minus, x_nest, x_unnest, x_lit,
}
use post.Words.Structured.{Structured, nothing, cells, begin_while_repeat}
use post.Inner.{step, virtualmachine, Bodies, nexthilevel}
use post.Inner.Meaning.{
  view, Effects, end, word, word_with, Means, ends, does, while_done, while_again,
}
use post.Inner.Arrive.{Holds, Arrives, Result, Realises}
use post.Inner.Primitive.{Primitive-Result, literal-Result}
use post.Inner.Refine.{Cells, compile_items-Result}
use post.Inner.Colon.{Body, Nesting, call-Arrives}
use post.Inner.Call.{virtualmachine-returns}

abbrev tokens : Tokens
tokens = record {
  x_branch = pos 1;
  x_0branch = pos 2;
  x_brdo = pos 3;
  x_brqdo = pos 4;
  x_brloop = pos 5;
  x_brleave = pos 6;
  x_brqleave = pos 7;
}

abbrev token_value : Token → ℤ
token_value x_dup = pos 11
token_value x_1minus = pos 12
token_value x_lit = pos 13
token_value x_nest = pos 14
token_value x_unnest = pos 15
token_value t = pos 8

-- Word 20 has its body at 1000.
unfoldable bodies : Bodies
bodies = record {
  function = λ i v. if i ==ℤ pos 14 then forth_nest v else v;
  address = λ i. pos 1000;
}

-- Token 9 suspends the machine.
unfoldable words : ℤ → Vm → Vm
unfolding forth_branch forth_0branch
words i v =
    if i ==ℤ pos 1
    then forth_branch v
    else if i ==ℤ pos 2
    then forth_0branch v
    else if i ==ℤ pos 3
    then forth_brdo v
    else if i ==ℤ pos 5
    then forth_brloop v
    else if i ==ℤ pos 9
    then record v { suspended = pos 9 }
    else if i ==ℤ pos 11
    then forth_dup v
    else if i ==ℤ pos 12
    then forth_1minus v
    else if i ==ℤ pos 13
    then forth_dolit v
    else if i ==ℤ pos 15
    then forth_unnest v
    else if i ==ℤ pos 20
    then nexthilevel bodies v
    else v

data Plain : ℤ → Vm → Vm → Type 0 where
  dups : {z : Vm} → Plain (pos 11) z (forth_dup z)
  decrements : {z : Vm} → Plain (pos 12) z (forth_1minus z)

data Operand : ℤ → ℤ → Vm → Vm → Type 0 where
  pushes : {n : ℤ} {z : Vm} → Operand (pos 13) n z (push n z)

abbrev effects : Effects
effects = record { plain = Plain; operand = Operand }

module _ (In : ℤ → Type 0) (code : ℤ → ℤ) where
  plain_lem :
      (i : ℤ) (z z' v : Vm)
      → Plain i z z'
      → Holds In code z
      → view v ≡ z
      → v.m v.ip ≡ i
      → Result words In code v z' (inc v.ip)
  unfolding words view forth_dup push forth_1minus
  plain_lem i _ z' v (dups {z}) h e p =
      Primitive-Result words In code (pos 11) forth_dup
        (record { sees = λ y. refl; place = λ y. refl; code = λ y. refl; runs = λ y. refl })
        (λ y. refl) v z h e p
  plain_lem i _ z' v (decrements {z}) h e p =
      Primitive-Result words In code (pos 12) forth_1minus
        (record { sees = λ y. refl; place = λ y. refl; code = λ y. refl; runs = λ y. refl })
        (λ y. refl) v z h e p

  operand_lem :
      (i n : ℤ) (z z' v : Vm)
      → Operand i n z z'
      → Holds In code z
      → view v ≡ z
      → v.m v.ip ≡ i
      → v.m (inc v.ip) ≡ n
      → Result words In code v z' (inc (inc v.ip))
  unfolding words
  operand_lem i _ _ z' v (pushes {n} {z}) h e p q =
      literal-Result words In code (pos 13) (λ y. refl) v z n h e p q

  words_lem : Realises words In code tokens effects
  unfolding words
  words_lem = record {
    zero_branch = λ v. refl;
    branch = λ v. refl;
    enter = λ v. refl;
    count = λ v. refl;
    plain = plain_lem;
    operand = operand_lem;
  }

abbrev countdown : List Item
countdown =
    compile (token x_lit ∷ number (pos 2) ∷ [])
    ∷ op_begin
    ∷ compile (token x_dup ∷ [])
    ∷ op_while
    ∷ compile (token x_1minus ∷ [])
    ∷ op_repeat
    ∷ []

abbrev countdown-Structured : Structured countdown []
countdown-Structured = cells (token x_lit ∷ number (pos 2) ∷ []) (
    begin_while_repeat (cells (token x_dup ∷ []) nothing) (cells (token x_1minus ∷ []) nothing)
      nothing)

abbrev compiler : Vm
compiler = blank addresses

-- The compiled code, with token 9 behind it.
abbrev loaded : Vm
loaded =
    let u = compile_items token_value tokens countdown compiler in blank (update u.m u.dp (pos 9))

abbrev one_round : Vm → Vm
one_round z = forth_1minus (pop (forth_dup z))

abbrev outcome : Vm → Vm
outcome z = pop (forth_dup (one_round (one_round (push (pos 2) z))))

tests :
    (z : Vm)
    → Means token_value tokens effects
        (compile (token x_dup ∷ []) ∷ op_while ∷ compile (token x_1minus ∷ []) ∷ op_repeat ∷ [])
        (op_while ∷ compile (token x_1minus ∷ []) ∷ op_repeat ∷ [])
        (cells (token x_dup ∷ []) nothing)
        z
        (forth_dup z)
tests z = does (word dups end) ends

one_ne : pos 1 ≢ pos 0
one_ne e = cc

two_ne : pos 2 ≢ pos 0
two_ne e = cc

one_round_tos : (z : Vm) → (one_round z).tos ≡ js_sub z.tos (pos 1)
unfolding forth_dup forth_1minus push pop
one_round_tos z = ap (λ n. js_sub n (pos 1)) (update_self z.s (inc z.sp) z.tos)

after_one : (z : Vm) → (one_round (push (pos 2) z)).tos ≡ pos 1
unfolding push
after_one z = one_round_tos (push (pos 2) z) ∙ js_sub-small (pos 2) (pos 1) (omega arith)

after_two : (z : Vm) → (one_round (one_round (push (pos 2) z))).tos ≡ pos 0
after_two z =
    one_round_tos (one_round (push (pos 2) z))
    ∙ ap (λ n. js_sub n (pos 1)) (after_one z)
    ∙ js_sub-small (pos 1) (pos 1) (omega arith)

dup_tos : (z : Vm) → (forth_dup z).tos ≡ z.tos
unfolding forth_dup push
dup_tos z = refl

push_tos : (n : ℤ) (z : Vm) → (push n z).tos ≡ n
unfolding push
push_tos n z = refl

countdown-Means :
    (z : Vm) → Means token_value tokens effects countdown [] countdown-Structured z (outcome z)
countdown-Means z =
    let z1 = push (pos 2) z in
    does (word_with pushes end) (
      while_again (tests z1) (λ e. two_ne (sym (push_tos (pos 2) z) ∙ sym (dup_tos z1) ∙ e))
        (does (word decrements end) ends)
        (while_again (tests (one_round z1))
          (λ e. one_ne (sym (after_one z) ∙ sym (dup_tos (one_round z1)) ∙ e))
          (does (word decrements end) ends)
          (while_done (tests (one_round (one_round z1)))
            (dup_tos (one_round (one_round z1)) ∙ after_two z) ends)))

loaded_code :
    (a : ℤ)
    → Cells token_value tokens countdown compiler a
    → loaded.m a ≡ (compile_items token_value tokens countdown compiler).m a
loaded_code a c =
    let u = compile_items token_value tokens countdown compiler in
    update_ne u.m u.dp (pos 9) a (λ e. absurd (ground (arith, c.1)))

compile_items-Result_example :
    Result words
      (Cells token_value tokens countdown compiler)
      (compile_items token_value tokens countdown compiler).m
      (record loaded { ip = pos 1000 })
      (outcome (view loaded))
      (compile_items token_value tokens countdown compiler).dp
unfolding view
compile_items-Result_example =
    compile_items-Result words token_value tokens effects countdown countdown-Structured compiler
      (view loaded) (outcome (view loaded)) (record loaded { ip = pos 1000 }) (omega arith)
      (words_lem (Cells token_value tokens countdown compiler)
        (compile_items token_value tokens countdown compiler).m)
      (countdown-Means (view loaded)) (record { running = refl; holds = loaded_code }) refl refl

loaded_end :
    (outcome (view loaded)).m (compile_items token_value tokens countdown compiler).dp ≡ pos 9
unfolding view forth_dup forth_1minus push pop
loaded_end =
    let u = compile_items token_value tokens countdown compiler in update_self u.m u.dp (pos 9)

suspends : (s : Vm) → (words (pos 9) s).suspended ≢ pos 0
unfolding words
suspends s e = cc

virtualmachine-returns_example :
    (n : ℕ) × (end : Vm) × (view end ≡ outcome (view loaded))
    × (end.ip ≡ (compile_items token_value tokens countdown compiler).dp)
    × ((fuel : ℕ) → virtualmachine words (n + suc fuel) (pos 1000) loaded ≡ some (step words end))
unfolding view
virtualmachine-returns_example =
    virtualmachine-returns words token_value tokens effects countdown countdown-Structured compiler
      loaded (outcome (view loaded)) (pos 9) (omega arith)
      (words_lem (Cells token_value tokens countdown compiler)
        (compile_items token_value tokens countdown compiler).m)
      (countdown-Means (view loaded)) loaded_code loaded_end suspends

abbrev countdown_word : Colon
countdown_word = record { name = "countdown"; immediate = false; items = countdown; returns = true }

abbrev word_code : ℤ → ℤ
word_code = (compile_colon token_value tokens countdown_word compiler).m

-- The call of word 20 stands at 77.
abbrev caller : Vm
caller = blank (update word_code (pos 77) (pos 20))

caller_code : (a : ℤ) → Body token_value tokens countdown_word compiler a → caller.m a ≡ word_code a
caller_code a c = update_ne word_code (pos 77) (pos 20) a (λ e. absurd (ground (arith, c.0)))

nesting : Nesting words token_value bodies (pos 20) (pos 1000)
unfolding words bodies
nesting = record { linkage = λ s. refl; body = refl; nest = λ s. refl; unnest = λ s. refl }

call-Arrives_example :
    let z = outcome (view (rpush (pos 78) caller)) in
    Arrives words caller (record z { rp = dec z.rp }) (z.r z.rp)
unfolding view
call-Arrives_example =
    call-Arrives words token_value tokens effects bodies countdown_word countdown-Structured
      compiler (pos 20) nesting refl (omega arith) (omega arith)
      (words_lem (Body token_value tokens countdown_word compiler) word_code) caller
      (outcome (view (rpush (pos 78) caller))) refl (record { running = refl; holds = caller_code })
      (countdown-Means (view (rpush (pos 78) caller)))
