-- ===== src/Base/Text.antt =====
-- Characters of a C string literal, without its terminating zero, and `strchr`.
use Prim.Native.Char.{code}
use Prim.Native.Nat.{ℕ, suc}
use Prim.Native.String.{String}
use mathlib.Core.List.{List, [], ◌∷◌}
use mathlib.Core.Option.{Option, none, some}
use mathlib.Core.Option
use pefs.Base.Tests.{◌==◌, if◌then◌else◌}

abbrev pub codes : String → List ℕ
codes String.[] = []
codes (String.◌∷◌ c s) = code c ∷ codes s

-- `strchr(s, ch) - s`, for a character other than the terminating zero.
unfoldable pub strchr : List ℕ → ℕ → Option ℕ
strchr [] ch = none
strchr (c ∷ s) ch = if c == ch then some 0 else Option.map suc (strchr s ch)
