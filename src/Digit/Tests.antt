-- ===== src/Digit/Tests.antt =====
-- A run of `?number`.
use post.Prelude.{negsuc, true, pos, some, [], ◌∷◌, Store, update, ◌≡◌, refl, arith}
use post.Fixture.{with_stack, stack-with_stack, addresses}
use post.Vm.{Vm, push}
use post.Number.{to_int32}
use post.Digit.{base, forth_qnumber}
use post.Digit.Numeral.{Reads, Digits, numeral, positional, signed}
use post.Digit.Entry.{qnumber-positional}
use post.Stack.View.{stack}

abbrev in_hex : Store
in_hex = update addresses base (pos 16)

-- `-2f` at 300
abbrev text : Store
text = update (update (update in_hex (pos 300) (pos 45)) (pos 301) (pos b'2')) (pos 302) (pos b'f')

qnumber-positional_example :
    (v' : Vm) × (forth_qnumber (with_stack text (pos 3 ∷ pos 300 ∷ [])) ≡ some v')
    × (stack v' ≡ some (negsuc 0 ∷ to_int32 (signed true (positional 16 0 (2 ∷ 15 ∷ []))) ∷ []))
unfolding push Reads Digits numeral positional
qnumber-positional_example =
    qnumber-positional (with_stack text (pos 3 ∷ pos 300 ∷ [])) true 16 b'2' 2 (b'f' ∷ []) (15 ∷ [])
      (pos 300) [] (omega arith) (omega arith) refl (refl, (refl, (refl, tt)))
      (refl, omega arith, (refl, omega arith, tt)) (omega arith)
      (stack-with_stack text (pos 3 ∷ pos 300 ∷ []))
