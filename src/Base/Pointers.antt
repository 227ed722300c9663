-- ===== src/Base/Pointers.antt =====
-- Raw memory seen from a pointer, `memcpy`, and 64-bit words.
use Prim.Native.Nat.{ℕ, zero, suc, ◌+◌, ◌-◌, ◌%◌, ◌^◌, ◌<◌}
use mathlib.Core.Path.{◌≡◌, refl}
use mathlib.Core.Bool.{◌&&◌}
use mathlib.Core.List.{[], ◌∷◌}
use native.Mathlib.Omega.{arith}
use dcfs_client.Base.Tests.{ltb, leb, if◌then◌else◌}
use dcfs_client.Base.Lists.{Bytes, length, get_or}

-- The byte at each distance from a `char *`.
abbrev pub Memory : Type 0
Memory = ℕ → ℕ

-- `memcpy(dst + d, src + s, n)`, as the memory that `dst` then points to.
unfoldable pub memcpy : Memory → ℕ → Memory → ℕ → ℕ → Memory
memcpy dst d src s n i = if leb d i && ltb i (d + n) then src (s + (i - d)) else dst i

-- `memset(dst, 0, n)`
unfoldable pub clear : Memory → ℕ → Memory
clear dst n i = if ltb i n then 0 else dst i

-- A byte string as memory; what stands behind its end is not read by the program.
unfoldable pub of_bytes : Bytes → Memory
of_bytes xs i = get_or xs i 0

-- `n` bytes read from `src + s`.
unfoldable pub bytes_at : Memory → ℕ → ℕ → Bytes
bytes_at src s zero = []
bytes_at src s (suc n) = src s ∷ bytes_at src (s + 1) n

pub length-bytes_at : (m : Memory) (s n : ℕ) → length (bytes_at m s n) ≡ n
unfolding bytes_at
length-bytes_at m s zero = refl
length-bytes_at m s (suc n) = omega (arith, length-bytes_at m (s + 1) n)

pub get_or-bytes_at : (m : Memory) (s n i : ℕ) → i < n → get_or (bytes_at m s n) i 0 ≡ m (s + i)
unfolding bytes_at
get_or-bytes_at m s zero i h = absurd (omega arith)
get_or-bytes_at m s (suc n) zero h = ground arith
get_or-bytes_at m s (suc n) (suc i) h = ground (arith, get_or-bytes_at m (s + 1) n i)

-- `uint64_t` addition.
abbrev pub add64 : ℕ → ℕ → ℕ
add64 a b = (a + b) % 2 ^ 64
