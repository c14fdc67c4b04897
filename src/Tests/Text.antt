-- ===== src/Tests/Text.antt =====
-- Text literals as bytes. Every literal in the tests is ASCII.
use Prim.Native.Char.{code}
use Prim.Native.String.{String}
use kason.Base.{[], ◌∷◌, Bytes}

abbrev pub codes : String → Bytes
codes String.[] = []
codes (String.◌∷◌ c s) = code c ∷ codes s
