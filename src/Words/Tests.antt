-- ===== src/Words/Tests.antt =====
-- Words that are compiled.
use post.Prelude.{pos, ℤ, refl, arith}
use post.Fixture.{blank, addresses}
use post.Flow.Compile.{Tokens}
use post.Flow.Structure.{Balanced}
use post.Words.{Token, compile_colon}
use post.Words.Dictionary.{colon_interpret}
use post.Words.Balance.{words-Balanced}

abbrev tokens : Tokens
tokens = record {
  x_branch = pos 1;
  x_0branch = pos 2;
  x_brdo = pos 3;
  x_brqdo = pos 4;
  x_brloop = pos 5;
  x_brleave = pos 6;
  x_brqleave = pos 7;
}

abbrev token_value : Token → ℤ
token_value t = pos 8

-- `interpret`
words-Balanced_example :
    Balanced (blank addresses) (compile_colon token_value tokens colon_interpret (blank addresses))
words-Balanced_example =
    words-Balanced token_value tokens 86 colon_interpret (blank addresses) refl (omega arith)
      (omega arith)
