-- ===== src/Base/Text.antt =====
-- Text as the list of its character codes, as C walks it, without the NUL.
use Prim.Native.Char.{code}
use Prim.Native.String.{String}
use Prim.Native.Nat.{ℕ}
use mathlib.Core.List.{List, [], ◌∷◌}
use mathlib.Core.Bool.{Bool, false, ◌||◌}
use hiya.Base.Tests.{◌==◌}

abbrev pub codes : String → List ℕ
codes String.[] = []
codes (String.◌∷◌ c s) = code c ∷ codes s

-- `strchr(set, c) != NULL` for a character `c` that is not NUL.
abbrev pub member : ℕ → List ℕ → Bool
member c [] = false
member c (x ∷ xs) = c == x || member c xs
