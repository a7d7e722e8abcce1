-- ===== src/Base/Text.antt =====
-- Byte strings: literals and the tests of Go's `strings` on prefixes.
use Prim.Native.Char.{code}
use Prim.Native.String.{String}
use mathlib.Core.Bool.{◌||◌, Bool, true, false, ◌&&◌}
use mathlib.Core.List.{[], ◌∷◌}
use smotryashchiy.Base.Tests.{ltb, Bytes, nat_eq}

-- The bytes of an ASCII literal.
abbrev pub codes : String → Bytes
codes String.[] = []
codes (String.◌∷◌ c s) = code c ∷ codes s

-- `strings.HasPrefix s p`, with the prefix first.
abbrev pub starts_with : Bytes → Bytes → Bool
starts_with [] s = true
starts_with (c ∷ p) [] = false
starts_with (c ∷ p) (d ∷ s) = nat_eq c d && starts_with p s

-- `s == ""`
abbrev pub is_empty : Bytes → Bool
is_empty [] = true
is_empty (c ∷ s) = false

-- `<` on Go strings.
abbrev pub lex_lt : Bytes → Bytes → Bool
lex_lt [] [] = false
lex_lt [] (y ∷ ys) = true
lex_lt (x ∷ xs) [] = false
lex_lt (x ∷ xs) (y ∷ ys) = ltb x y || (nat_eq x y && lex_lt xs ys)
