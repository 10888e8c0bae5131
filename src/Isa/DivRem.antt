-- ===== src/Isa/DivRem.antt =====
-- The division instructions of lib/Instructions.cpp: quotient and remainder belong together.
use native.Mathlib.Nat.{div-le_self}
use rip_sim.Base.{
  ℕ, suc, ◌+◌, ◌*◌, ◌^◌, ◌<◌, ◌≤◌, ◌≡◌, ◌≢◌, ◌/◌, ◌%◌, arith, u32, to_word, neg_ℕ, zero,
}
use rip_sim.Insts.{div, divu, rem, remu}
use rip_sim.Isa.{r_result}
use rip_sim.Isa.Products.{Sign, nonneg, negative, sign, compl_mul, mul_compl}

-- For every 32-bit dividend and every divisor, 0 included, divu times the divisor plus remu is the
-- dividend in 32-bit arithmetic, and remu is below a divisor other than 0.
pub divu-remu :
    (a b : ℕ)
    → a < 2 ^ 32
    → (u32 (r_result divu a b * b + r_result remu a b) ≡ a) × (b ≢ 0 → r_result remu a b < b)
unfolding r_result
divu-remu a b h = (ground arith, ground arith)

-- -q times b, in 32-bit arithmetic.
neg_product : (q b : ℕ) → q ≤ 2 ^ 31 → (to_word 32 (neg_ℕ q) * b + q * b) % 2 ^ 32 ≡ 0
neg_product zero b h = omega arith
neg_product (suc q) b h =
    let e : to_word 32 (neg_ℕ (suc q)) + suc q ≡ 2 ^ 32 = ground arith in
    omega (arith, compl_mul (to_word 32 (neg_ℕ (suc q))) (suc q) b e)

div-rem_by-Sign : (a b : ℕ) → Sign a → Sign b → u32 (r_result div a b * b + r_result rem a b) ≡ a
unfolding r_result
div-rem_by-Sign a b (nonneg la ea) (nonneg lb eb) = rw (ea, eb) (ground arith)
div-rem_by-Sign a b (nonneg la ea) (negative d fb lb eb) =
    rw (ea, eb)
      (ground (
        arith,
        neg_product (a / suc d) b (omega (arith, div-le_self a (suc d))),
        mul_compl (a / suc d) (suc d) b fb,
      ))
div-rem_by-Sign a b (negative c fa la ea) (nonneg lb eb) =
    rw (ea, eb) (ground (arith, neg_product (suc c / b) b (omega (arith, div-le_self (suc c) b))))
div-rem_by-Sign a b (negative c fa la ea) (negative d fb lb eb) =
    rw (ea, eb)
      (ground (arith, div-le_self (suc c) (suc d), mul_compl (suc c / suc d) (suc d) b fb))

-- For all 32-bit operands, division by zero and overflow included, div times the divisor plus rem
-- is the dividend in 32-bit arithmetic.
pub div-rem :
    (a b : ℕ) → a < 2 ^ 32 → b < 2 ^ 32 → u32 (r_result div a b * b + r_result rem a b) ≡ a
div-rem a b ha hb = div-rem_by-Sign a b (sign a ha) (sign b hb)
