-- ===== src/Base/Word.antt =====
-- The fixed-width integers of include/CommonTypes.h as native numbers. A value of type `Byte`,
-- `HalfWord`, `Word`, `RegVal` or `CSRVal` is its bit pattern; an `Address` is below 2 ^ 64.
use Prim.Native.Nat.{ℕ, ◌+◌, ◌-◌, ◌*◌, ◌/◌, ◌%◌, ◌^◌}
use rip_sim.Base.Logic.{ltb, if◌then◌else◌}

abbrev pub u8 : ℕ → ℕ
u8 n = n % 2 ^ 8

abbrev pub u16 : ℕ → ℕ
u16 n = n % 2 ^ 16

abbrev pub u32 : ℕ → ℕ
u32 n = n % 2 ^ 32

abbrev pub u64 : ℕ → ℕ
u64 n = n % 2 ^ 64

infixl 75 ◌<<<◌ ◌>>>◌
abbrev pub ◌<<<◌ : ℕ → ℕ → ℕ
x <<< k = x * 2 ^ k

abbrev pub ◌>>>◌ : ℕ → ℕ → ℕ
x >>> k = x / 2 ^ k

-- Sums and differences of 32-bit patterns, signed or unsigned.
abbrev pub add32 : ℕ → ℕ → ℕ
add32 a b = (a + b) % 2 ^ 32

abbrev pub sub32 : ℕ → ℕ → ℕ
sub32 a b = (a + 2 ^ 32 - b) % 2 ^ 32

-- `~x` on 32 bits.
abbrev pub not32 : ℕ → ℕ
not32 a = 2 ^ 32 - 1 - a

-- A signed integer of `w` bits converted to one of `v` bits, `w ≤ v`.
abbrev pub widen : ℕ → ℕ → ℕ → ℕ
widen w v x = if ltb x (2 ^ (w - 1)) then x else x + (2 ^ v - 2 ^ w)

-- `signed char` and `signed short` to `RegVal`, and `RegVal` to `Address`.
abbrev pub sext8 : ℕ → ℕ
sext8 = widen 8 32

abbrev pub sext16 : ℕ → ℕ
sext16 = widen 16 32

abbrev pub sext64 : ℕ → ℕ
sext64 = widen 32 64

-- `>>` of a signed integer of `w` bits copies the sign bit in from the left.
abbrev pub sar : ℕ → ℕ → ℕ → ℕ
sar w x k = if ltb x (2 ^ (w - 1)) then x / 2 ^ k else 2 ^ w - 1 - (2 ^ w - 1 - x) / 2 ^ k
