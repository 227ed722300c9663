-- ===== src/Base/Text.antt =====
-- Text literals as the bytes that C++ holds for them.
use Prim.Native.Char.{code}
use Prim.Native.String.{String}
use mathlib.Core.List.{[], ◌∷◌}
use dcfs_client.Base.Lists.{Bytes}

abbrev pub ascii : String → Bytes
ascii String.[] = []
ascii (String.◌∷◌ c s) = code c ∷ ascii s
