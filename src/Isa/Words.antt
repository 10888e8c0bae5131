-- ===== src/Isa/Words.antt =====
-- The values that lib/Instructions.cpp writes to a register have 32 bits.
use native.Mathlib.Nat.{div-le_self, mod-le}
use rip_sim.Base.{
  ℕ, ◌/◌, ◌%◌, ◌^◌, ◌<◌, arith, bit_and, bit_and_le, bit_or_lt, bit_xor_lt, ltb, to_int, Bool, true,
  false, ℤ, pos, negsuc, to_word, sar, signed32, ltb_ℤ, tdiv, trem,
}
use rip_sim.Insts.{
  RMnemo, add, sub, sll, slt, sltu, xor, srl, sra, or, and, mul, mulh, mulhsu, mulhu, div, divu,
  rem, remu,
}
use rip_sim.Isa.Alu.{r_result}

abbrev pub IsWord : ℕ → Type 0
IsWord v = v < 2 ^ 32

pub to_int-IsWord : (b : Bool) → IsWord (to_int b)
to_int-IsWord true = omega arith
to_int-IsWord false = omega arith

to_word-IsWord : (z : ℤ) → IsWord (to_word 32 z)
to_word-IsWord (pos n) = omega arith
to_word-IsWord (negsuc n) = omega arith

pub div-IsWord : (a d : ℕ) → IsWord a → IsWord (a / d)
div-IsWord a d h = omega (arith, div-le_self a d)

pub sar-IsWord : (x k : ℕ) → IsWord x → IsWord (sar 32 x k)
sar-IsWord x k h = ground (arith, div-le_self x (2 ^ k))

rem-IsWord : (a b : ℕ) → IsWord a → IsWord (a % b)
rem-IsWord a b h = omega (arith, mod-le a b)

pub r_result-IsWord : (m : RMnemo) (a b : ℕ) → IsWord a → IsWord b → IsWord (r_result m a b)
unfolding r_result
r_result-IsWord add a b ha hb = omega arith
r_result-IsWord sub a b ha hb = omega arith
r_result-IsWord sll a b ha hb = omega arith
r_result-IsWord slt a b ha hb = to_int-IsWord (ltb_ℤ (signed32 a) (signed32 b))
r_result-IsWord sltu a b ha hb = to_int-IsWord (ltb a b)
r_result-IsWord xor a b ha hb = bit_xor_lt 32 a b ha hb
r_result-IsWord srl a b ha hb = div-IsWord a (2 ^ bit_and b 0b11111) ha
r_result-IsWord sra a b ha hb = sar-IsWord a (bit_and b 0b11111) ha
r_result-IsWord or a b ha hb = bit_or_lt 32 a b ha hb
r_result-IsWord and a b ha hb = omega (arith, bit_and_le a b)
r_result-IsWord mul a b ha hb = omega arith
r_result-IsWord mulh a b ha hb = omega arith
r_result-IsWord mulhsu a b ha hb = omega arith
r_result-IsWord mulhu a b ha hb = omega arith
r_result-IsWord div a b ha hb = ground (arith, to_word-IsWord (tdiv (signed32 a) (signed32 b)))
r_result-IsWord divu a b ha hb = ground (arith, div-IsWord a b ha)
r_result-IsWord rem a b ha hb = ground (arith, to_word-IsWord (trem (signed32 a) (signed32 b)))
r_result-IsWord remu a b ha hb = ground (arith, rem-IsWord a b ha)
