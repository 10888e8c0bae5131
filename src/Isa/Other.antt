-- ===== src/Isa/Other.antt =====
-- The other `exec`s of lib/Instructions.cpp: U-, S-, B- and J-type.
use rip_sim.Base.{
  true, false, ℕ, ◌+◌, ◌%◌, ◌^◌, u8, u32, u64, add32, sext64, ◌<<<◌, ltb, ltb_ℤ, ◌==◌, Bool, not,
  if◌then◌else◌, signed32, ◌>>=◌, Result, ok, none, ◌∷◌,
}
use rip_sim.Insts.{
  UMnemo, SMnemo, BMnemo, JMnemo, lui, auipc, sb, sh, sw, beq, bne, blt, bge, bltu, bgeu, jal,
  sign_extend, Body, i_body, r_body, u_body, j_body, s_body, b_body,
}
use rip_sim.Registers
use rip_sim.Memory.{Memory, write_byte, write_half_word, write_word}
use rip_sim.Csr.{ModeKind, epilogue}
use rip_sim.Isa.State.{Machine, Out, write_next}
use rip_sim.Isa.Alu.{r_exec}
use rip_sim.Isa.Immediate.{i_exec}

unfoldable pub u_exec : UMnemo → ℕ → ℕ → Machine → Out
unfolding write_next
u_exec lui rd imm s = write_next s rd (u32 (sign_extend 20 imm <<< 12))
u_exec auipc rd imm s = write_next s rd (u32 (s.pc + sext64 (u32 (sign_extend 20 imm <<< 12))))

-- `Mem.writeByte(Ad, GPRegs[Rs2])` and the two others: the value is cut to the parameter's type.
unfoldable pub store : SMnemo → Memory → ℕ → ℕ → Result Memory
store sb m ad val = write_byte m ad (val % 2 ^ 8)
store sh m ad val = write_half_word m ad (val % 2 ^ 16)
store sw m ad val = write_word m ad val

abbrev pub is_epilogue : ModeKind → Bool
is_epilogue epilogue = true
is_epilogue _ = false

-- What follows once the address and the value are read.
unfoldable pub s_effect : SMnemo → ℕ → ℕ → Machine → Out
unfolding store
s_effect m ad b s =
    let next = u64 (s.pc + 4) in
    if u32 ad == 0x10000000
    then ok (record s { console = u8 b ∷ s.console; pc = next }, none)
    else if is_epilogue s.mode
    then ok (record s { pc = next }, none)
    else (do mem ← store m s.mem ad b; ok (record s { mem = mem; pc = next }, none))

unfoldable pub s_exec : SMnemo → ℕ → ℕ → ℕ → Machine → Out
unfolding s_effect
s_exec m rs1 rs2 imm s = do
  a ← Registers.read s.regs rs1
  b ← Registers.read s.regs rs2
  s_effect m (sext64 (add32 a (sign_extend 12 imm))) b s

-- The condition of a branch, on the values of rs1 and rs2.
unfoldable pub condition : BMnemo → ℕ → ℕ → Bool
condition beq a b = a == b
condition bne a b = not (a == b)
condition blt a b = ltb_ℤ (signed32 a) (signed32 b)
condition bge a b = not (ltb_ℤ (signed32 a) (signed32 b))
condition bltu a b = ltb a b
condition bgeu a b = not (ltb a b)

unfoldable pub b_exec : BMnemo → ℕ → ℕ → ℕ → Machine → Out
unfolding condition
b_exec m rs1 rs2 imm s = do
  a ← Registers.read s.regs rs1
  b ← Registers.read s.regs rs2
  let target = u64 (s.pc + sext64 (sign_extend 13 imm))
  ok (record s { pc = if condition m a b then target else u64 (s.pc + 4) }, none)

unfoldable pub j_exec : JMnemo → ℕ → ℕ → Machine → Out
j_exec jal rd imm s = do
  r ← Registers.write s.regs rd (u32 (s.pc + 4))
  ok (record s { regs = r; pc = u64 (s.pc + sext64 (sign_extend 21 imm)) }, none)

-- The virtual call `I->exec(...)`.
unfoldable pub exec : Body → Machine → Out
unfolding i_exec r_exec u_exec j_exec s_exec b_exec
exec (i_body m rd rs1 imm) s = i_exec m rd rs1 imm s
exec (r_body m rd rs1 rs2) s = r_exec m rd rs1 rs2 s
exec (u_body m rd imm) s = u_exec m rd imm s
exec (j_body m rd imm) s = j_exec m rd imm s
exec (s_body m rs1 rs2 imm) s = s_exec m rs1 rs2 imm s
exec (b_body m rs1 rs2 imm) s = b_exec m rs1 rs2 imm s
