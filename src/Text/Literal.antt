-- ===== src/Text/Literal.antt =====
-- The texts that the script writes down.
use Prim.Native.Char.{code}
use Prim.Native.String.{String}
use post.Prelude.{[], ◌∷◌}
use post.Text.{Text}

abbrev pub units : String → Text
units String.[] = []
units (String.◌∷◌ c s) = code c ∷ units s
