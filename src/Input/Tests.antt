-- ===== src/Input/Tests.antt =====
-- Runs of `parse`, of the sources and of the line editor.
use post.Prelude.{pos, Store, update, ℕ, ◌+◌, ◌-◌, some, [], ◌∷◌, ◌≡◌, refl, arith}
use post.Fixture.{with_stack, stack-with_stack, addresses}
use post.Vm.{push}
use post.Text.{Text, unpackstring}
use post.Input.{Input, toin, forth_parse, forth_pushsource, forth_popsource, forth_decode}
use post.Input.Delimited.{IsSkipped, IsText}
use post.Input.Parse.{Parsed, parse-IsText}
use post.Input.Source.{SameSource, popsource-pushsource}
use post.Input.Edit.{Edited}
use post.Input.Decode.{decode-Edited}

-- `  ab c`, read from its first character on.
abbrev line : Text
line = 32 ∷ 32 ∷ b'a' ∷ b'b' ∷ 32 ∷ b'c' ∷ []

abbrev source : Store
source = update (unpackstring line (pos 100) addresses) toin (pos 0)

abbrev reading : Input
reading = record {
  vm = with_stack source (pos 32 ∷ pos 5 ∷ []);
  parsebuf = pos 100;
  parsebuflen = pos 6;
  sourceid = [];
  inbuf = [];
  echo = [];
}

parse-IsText_example :
    (first : ℕ) × (len : ℕ) × (past : ℕ) × IsSkipped reading.vm.m (pos 32) 100 6 first
    × IsText reading.vm.m (pos 32) (100 + first) (6 - first) len past
    × Parsed (forth_parse reading) 100 0 first len past (pos 5 ∷ [])
unfolding push
parse-IsText_example =
    parse-IsText reading (pos 32) (pos 5 ∷ []) 100 0 6
      (stack-with_stack source (pos 32 ∷ pos 5 ∷ [])) refl refl refl (omega arith)

-- The first word of the line is `ab`.
abbrev parsed : Input
parsed = forth_parse reading

parsed_word :
    (parsed.vm.tos ≡ pos 2) × (parsed.vm.s parsed.vm.sp ≡ pos 102) × (parsed.vm.m toin ≡ pos 5)
unfolding forth_parse unpackstring push
parsed_word = (refl, refl, refl)

abbrev between : Input
between = record (forth_pushsource reading) { parsebuf = pos 400; parsebuflen = pos 3 }

popsource-pushsource_example :
    (u : Input) × (forth_popsource between ≡ some u) × SameSource reading u
popsource-pushsource_example = popsource-pushsource reading between refl

-- The key `x` on a line at 200 of which two keys are typed and four may follow.
abbrev typing : Input
typing = record reading { vm = with_stack addresses (pos b'x' ∷ pos 4 ∷ pos 202 ∷ pos 200 ∷ []) }

decode-Edited_example : Edited addresses (forth_decode typing).vm 200 202 4 []
unfolding push
decode-Edited_example =
    decode-Edited typing (pos b'x') 200 202 4 [] (λ e. absurd (ground arith)) (omega arith)
      (omega arith) (stack-with_stack addresses (pos b'x' ∷ pos 4 ∷ pos 202 ∷ pos 200 ∷ []))
