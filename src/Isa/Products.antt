-- ===== src/Isa/Products.antt =====
-- The multiplications of lib/Instructions.cpp: the high and the low word of one product.
use native.Mathlib.Nat.{add-mul, mul-add, mul-le-mul}
use native.Mathlib.Decide.{dec_lt}
use rip_sim.Base.{
  ℕ, suc, ◌+◌, ◌-◌, ◌*◌, ◌%◌, ◌/◌, ◌^◌, ◌≤◌, ◌<◌, ◌≡◌, arith, ap, sym, ◌∙◌, signed32, to_word, ◌*ℤ◌,
  pos, negsuc, ℤ, bit_and_ones, u32, sar,
}
use rip_sim.Insts.{mul, mulh, mulhu}
use rip_sim.Isa.{r_result}

-- The two ranges of a signed word.
pub data Sign (a : ℕ) : Type 0 where
  nonneg : a < 2 ^ 31 → signed32 a ≡ pos a → Sign a
  negative : (c : ℕ) → suc c + a ≡ 2 ^ 32 → c < 2 ^ 31 → signed32 a ≡ negsuc c → Sign a

pub sign : (a : ℕ) → a < 2 ^ 32 → Sign a
sign a h = elim (dec_lt a (2 ^ 31)) [
  | yes l ↦ nonneg l (ground arith)
  | no l ↦ negative (2 ^ 32 - 1 - a) (omega arith) (omega arith) (ground arith)
]

pub compl_mul : (c a b : ℕ) → c + a ≡ 2 ^ 32 → c * b + a * b ≡ 2 ^ 32 * b
compl_mul c a b e = sym (add-mul c a b) ∙ ap (λ k. k * b) e

pub mul_compl : (b c a : ℕ) → c + a ≡ 2 ^ 32 → b * c + b * a ≡ b * 2 ^ 32
mul_compl b c a e = sym (mul-add b c a) ∙ ap (λ k. b * k) e

small_product : (a b : ℕ) → a ≤ 2 ^ 31 → b ≤ 2 ^ 31 → a * b ≤ 2 ^ 62
small_product a b ha hb = mul-le-mul ha hb

-- The low word of the signed product is that of the unsigned one.
low_word :
    (a b : ℕ) → Sign a → Sign b → to_word 64 (signed32 a *ℤ signed32 b) % 2 ^ 32 ≡ a * b % 2 ^ 32
low_word a b (nonneg la ea) (nonneg lb eb) = rw (ea, eb) (ground arith)
low_word a b (nonneg la ea) (negative d fb lb eb) =
    rw (ea, eb)
      (ground
        (arith, mul_compl a (suc d) b fb, small_product a (suc d) (omega arith) (omega arith)))
low_word a b (negative c fa la ea) (nonneg lb eb) =
    rw (ea, eb)
      (ground
        (arith, compl_mul (suc c) a b fa, small_product (suc c) b (omega arith) (omega arith)))
low_word a b (negative c fa la ea) (negative d fb lb eb) =
    rw (ea, eb)
      (ground (
        arith,
        compl_mul (suc c) a b fa,
        mul_compl (suc c) (suc d) b fb,
        small_product (suc c) (suc d) (omega arith) (omega arith),
      ))

mul_value : (a b : ℕ) → a < 2 ^ 32 → b < 2 ^ 32 → r_result mul a b ≡ a * b % 2 ^ 32
unfolding r_result
mul_value a b ha hb = omega (
  arith,
  bit_and_ones 32 (to_word 64 (signed32 a *ℤ signed32 b)),
  low_word a b (sign a ha) (sign b hb),
)

-- For 32-bit operands, mulhu and mul are the high and the low word of the product of the unsigned
-- operands.
pub mulhu-mul :
    (a b : ℕ) → a < 2 ^ 32 → b < 2 ^ 32 → r_result mulhu a b * 2 ^ 32 + r_result mul a b ≡ a * b
unfolding r_result
mulhu-mul a b ha hb =
    let bound : a * b ≤ (2 ^ 32 - 1) * (2 ^ 32 - 1) =
      mul-le-mul {n₂ = 2 ^ 32 - 1} {m₂ = 2 ^ 32 - 1} (omega arith) (omega arith) in
    omega (arith, mul_value a b ha hb)

to_word-lt : (x : ℤ) → to_word 64 x < 2 ^ 64
to_word-lt (pos n) = omega arith
to_word-lt (negsuc n) = omega arith

high_word : (w : ℕ) → w < 2 ^ 64 → u32 (sar 64 w 32) ≡ w / 2 ^ 32
high_word w h = ground arith

-- For 32-bit operands, mulh and mul are the high and the low word of the 64-bit product of the
-- signed operands.
pub mulh-mul :
    (a b : ℕ)
    → a < 2 ^ 32
    → b < 2 ^ 32
    → r_result mulh a b * 2 ^ 32 + r_result mul a b ≡ to_word 64 (signed32 a *ℤ signed32 b)
unfolding r_result
mulh-mul a b ha hb =
    let w = to_word 64 (signed32 a *ℤ signed32 b) in
    omega (arith, bit_and_ones 32 w, high_word w (to_word-lt (signed32 a *ℤ signed32 b)))
