-- ===== src/Base/Blocks.antt =====
-- Positions in blocks: `k * bs + o` with `o < bs` is byte `o` of block `k`.
use Prim.Native.Nat.{ℕ, ◌+◌, ◌*◌, ◌≤◌, ◌<◌, ◌/◌, ◌%◌}
use mathlib.Core.Path.{◌≡◌}
use native.Mathlib.Omega.{arith}
use native.Mathlib.Decide.{dec_lt}

pub mul_le : (j k bs : ℕ) → j ≤ k → j * bs ≤ k * bs
mul_le j k bs h = grind arith

pub block-le : (j k bs o : ℕ) → j * bs ≤ k * bs + o → o < bs → j ≤ k
block-le j k bs o h l = elim (dec_lt k j) [
  | yes p ↦ absurd (omega (arith, mul_le (k + 1) j bs (omega arith)))
  | no p ↦ omega arith
]

pub div-mul-mod : (p bs : ℕ) → 0 < bs → p ≡ p / bs * bs + p % bs
div-mul-mod p bs h = grind arith

pub mod-lt_size : (p bs : ℕ) → 0 < bs → p % bs < bs
mod-lt_size p bs h = grind arith

pub div_mono : (p q bs : ℕ) → 0 < bs → p ≤ q → p / bs ≤ q / bs
div_mono p q bs h l =
    block-le (p / bs) (q / bs) bs (q % bs) (omega (arith, div-mul-mod p bs h, div-mul-mod q bs h))
      (mod-lt_size q bs h)
