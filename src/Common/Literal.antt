-- ===== src/Common/Literal.antt =====
-- The character codes of a string literal.
use Prim.Native.String.{String}
use Prim.Native.Char.{code}
use alexproject.Common.{[], ◌∷◌}
use alexproject.Common.Decimal.{Text}

abbrev pub codes : String → Text
codes String.[] = []
codes (String.◌∷◌ c s) = code c ∷ codes s
