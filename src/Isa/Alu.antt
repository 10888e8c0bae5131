-- ===== src/Isa/Alu.antt =====
-- `RInstruction::exec` of lib/Instructions.cpp.
use rip_sim.Base.{
  ℕ, ◌*◌, ◌/◌, ◌%◌, bit_and, bit_or, bit_xor, u32, u64, add32, sub32, sext64, sar, ◌<<<◌, ◌>>>◌,
  ltb, ltb_ℤ, to_int, ◌==◌, ◌&&◌, if◌then◌else◌, ◌*ℤ◌, signed32, to_word, tdiv, trem, ◌>>=◌,
}
use rip_sim.Insts.{
  RMnemo, add, sub, sll, slt, sltu, xor, srl, sra, or, and, mul, mulh, mulhsu, mulhu, div, divu,
  rem, remu,
}
use rip_sim.Registers
use rip_sim.Isa.State.{Machine, Out, write_next}

-- The value for rd, from those of rs1 and rs2.
unfoldable pub r_result : RMnemo → ℕ → ℕ → ℕ
r_result add a b = add32 a b
r_result sub a b = sub32 a b
r_result sll a b = u32 (a <<< bit_and b 0b11111)
r_result slt a b = to_int (ltb_ℤ (signed32 a) (signed32 b))
r_result sltu a b = to_int (ltb a b)
r_result xor a b = bit_xor a b
r_result srl a b = a >>> bit_and b 0b11111
r_result sra a b = sar 32 a (bit_and b 0b11111)
r_result or a b = bit_or a b
r_result and a b = bit_and a b
r_result mul a b = u32 (bit_and (to_word 64 (signed32 a *ℤ signed32 b)) 0xffffffff)
r_result mulh a b = u32 (sar 64 (to_word 64 (signed32 a *ℤ signed32 b)) 32)
r_result mulhsu a b = u32 (u64 (sext64 a * b) >>> 32)
r_result mulhu a b = u32 (u64 (a * b) >>> 32)
r_result div a b =
    if b == 0
    then 0xffffffff
    else if a == 0x80000000 && b == 0xffffffff
    then 0x80000000
    else to_word 32 (tdiv (signed32 a) (signed32 b))
r_result divu a b = if b == 0 then 0xffffffff else a / b
r_result rem a b =
    if b == 0
    then a
    else if a == 0x80000000 && b == 0xffffffff
    then 0
    else to_word 32 (trem (signed32 a) (signed32 b))
r_result remu a b = if b == 0 then a else a % b

unfoldable pub r_exec : RMnemo → ℕ → ℕ → ℕ → Machine → Out
unfolding r_result write_next
r_exec m rd rs1 rs2 s = do
  a ← Registers.read s.regs rs1
  b ← Registers.read s.regs rs2
  write_next s rd (r_result m a b)
