-- ===== src/Common/Text.antt =====
-- ASCII texts as lists of bytes.
use Prim.Native.Char.{code}
use Prim.Native.String.{String}
use mathlib.Core.List.{[], ◌∷◌}
use fa_st_manager.Common.Tests.{Name}

-- `String` has its own `[]` and `∷`.
abbrev pub codes : String → Name
codes String.[] = []
codes (String.◌∷◌ c s) = code c ∷ codes s
