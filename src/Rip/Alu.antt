-- ===== src/Rip/Alu.antt =====
-- The arithmetic of `RIPSimulator::exec`, on the latched values of rs1, rs2 and the immediate.
use rip_sim.Base.{
  ℕ, ◌+◌, ◌*◌, ◌/◌, ◌%◌, bit_and, bit_or, bit_xor, u32, u64, add32, sub32, sext64, sar, ◌<<<◌,
  ◌>>>◌, ltb, ltb_ℤ, to_int, ◌==◌, ◌&&◌, if◌then◌else◌, ◌*ℤ◌, signed32, to_word, tdiv, trem, ◌>>◌,
  Result, ok, guard, bad_shift, not32, Option, none, some,
}
use rip_sim.Insts.{
  RMnemo, IMnemo, UMnemo, add, sub, sll, slt, sltu, xor, srl, sra, or, and, mul, mulh, mulhsu,
  mulhu, div, divu, rem, remu, addi, slti, sltiu, xori, ori, andi, slli, srli, srai, csrrw, csrrs,
  csrrc, csrrwi, csrrsi, csrrci, lui, auipc,
}

unfoldable pub r_value : RMnemo → ℕ → ℕ → ℕ
r_value add a b = add32 a b
r_value sub a b = sub32 a b
r_value sll a b = u32 (a <<< bit_and b 0b11111)
r_value slt a b = to_int (ltb_ℤ (signed32 a) (signed32 b))
r_value sltu a b = to_int (ltb a b)
r_value xor a b = bit_xor a b
r_value srl a b = a >>> bit_and b 0b11111
r_value sra a b = sar 32 a (bit_and b 0b11111)
r_value or a b = bit_or a b
r_value and a b = bit_and a b
r_value mul a b = u32 (bit_and (to_word 64 (signed32 a *ℤ signed32 b)) 0xffffffff)
r_value mulh a b = u32 (sar 64 (to_word 64 (signed32 a *ℤ signed32 b)) 32)
r_value mulhsu a b = u32 (u64 (sext64 a * b) >>> 32)
r_value mulhu a b = u32 (u64 (a * b) >>> 32)
r_value div a b =
    if b == 0
    then 0xffffffff
    else if a == 0x80000000 && b == 0xffffffff
    then 0x80000000
    else to_word 32 (tdiv (signed32 a) (signed32 b))
r_value divu a b = if b == 0 then 0xffffffff else a / b
r_value rem a b =
    if b == 0
    then a
    else if a == 0x80000000 && b == 0xffffffff
    then 0
    else to_word 32 (trem (signed32 a) (signed32 b))
r_value remu a b = if b == 0 then a else a % b

-- The I-type mnemonics whose result is computed from rs1 and the immediate alone; `none` for the
-- others. A shift by 32 or more is undefined.
unfoldable pub i_value : IMnemo → ℕ → ℕ → Option (Result ℕ)
i_value addi a i = some (ok (add32 a i))
i_value slti a i = some (ok (to_int (ltb_ℤ (signed32 a) (signed32 i))))
i_value sltiu a i = some (ok (to_int (ltb a i)))
i_value xori a i = some (ok (bit_xor a i))
i_value ori a i = some (ok (bit_or a i))
i_value andi a i = some (ok (bit_and a i))
i_value slli a i = some (guard (ltb i 32) bad_shift >> ok (u32 (a <<< i)))
i_value srli a i = some (guard (ltb i 32) bad_shift >> ok (a >>> i))
i_value srai a i = some (guard (ltb i 32) bad_shift >> ok (sar 32 a i))
i_value _ a i = none

-- The new value of the CSR, from its old one `cv` and `a`, the value of rs1 or the zero-extended
-- immediate.
unfoldable pub csr_value : IMnemo → ℕ → ℕ → Option ℕ
csr_value csrrw cv a = some a
csr_value csrrwi cv a = some a
csr_value csrrs cv a = some (bit_or cv a)
csr_value csrrsi cv a = some (bit_or cv a)
csr_value csrrc cv a = some (bit_and cv (not32 a))
csr_value csrrci cv a = some (bit_and cv (not32 a))
csr_value _ cv a = none

unfoldable pub u_value : UMnemo → ℕ → ℕ → ℕ
u_value lui pc i = u32 (i <<< 12)
u_value auipc pc i = u32 (pc + sext64 (u32 (i <<< 12)))
