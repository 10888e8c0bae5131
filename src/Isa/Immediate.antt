-- ===== src/Isa/Immediate.antt =====
-- `IInstruction::exec` of lib/Instructions.cpp. Its branches for "fence" and "fence.i" are left
-- out: the decoder makes no object of those names, and the table has none.
use rip_sim.Base.{
  ℕ, ◌+◌, bit_and, bit_or, bit_xor, u32, u64, add32, sext8, sext16, sext64, sar, ◌<<<◌, ◌>>>◌, ltb,
  ltb_ℤ, to_int, ◌==◌, signed32, ◌>>=◌, ◌>>◌, ok, err, assertion, bad_shift, guard, none, some,
}
use rip_sim.Insts.{
  IMnemo, addi, slti, sltiu, xori, ori, andi, jalr, lb, lh, lw, lbu, lhu, slli, srli, srai, csrrw,
  csrrs, csrrc, csrrwi, csrrsi, csrrci, ecall, ebreak, uret, sret, mret, ext, extx, sign_extend,
}
use rip_sim.Registers
use rip_sim.Memory.{read_byte, read_half_word, read_word}
use rip_sim.Csr
use rip_sim.Csr.{
  Csrs, ModeKind, user, supervisor, hypervisor, machine, epilogue, mode_of_code, mstatus, mepc,
}
use rip_sim.Exceptions.{
  Exception, illegal_instruction, breakpoint, environment_call_from_u_mode,
  environment_call_from_s_mode, environment_call_from_m_mode, r0, r1,
}
use rip_sim.Isa.State.{Machine, Out, write_next}

-- The address of a load: the sum is a signed `int`.
abbrev pub load_address : ℕ → ℕ → ℕ
load_address a imm_i = sext64 (add32 a imm_i)

-- A CSR instruction: CSR `ca` becomes `new` of its old value, which goes to rd.
unfoldable pub csr_exec : Machine → ℕ → ℕ → (ℕ → ℕ) → Out
csr_exec s rd ca new = do
  cv ← Csr.read s.csrs ca
  c ← Csr.write s.csrs ca (new cv)
  write_next (record s { csrs = c }) rd cv

ecall_exception : ModeKind → Exception
ecall_exception user = environment_call_from_u_mode
ecall_exception supervisor = environment_call_from_s_mode
ecall_exception machine = environment_call_from_m_mode
ecall_exception _ = illegal_instruction

-- The end of mret: MIE is set to MPIE, MPIE to 1 and MPP to 0, in the old value `v`.
mret_status : ℕ → ℕ
mret_status v =
    let mpie = bit_and (sar 32 v 7) 1 in
    let res = bit_or (bit_and v 0xfffffff7) (mpie <<< 3) in
    bit_and (bit_or res 0b10000000) 0xffffe7ff

-- The mode that MPP names decides what is written first; `MSTATUS` there is the constant 0x300.
unfoldable pub mret_mode : Machine → ModeKind → ℕ → Out
unfolding mret_status
mret_mode s user v = do
  c ← Csr.write s.csrs mstatus (bit_and mstatus 0xfffdffff)
  c ← Csr.write c mstatus (mret_status v)
  ok (record s { csrs = c }, none)
mret_mode s supervisor v = do
  c ← Csr.write s.csrs mstatus (bit_and mstatus 0xfffdffff)
  c ← Csr.write c mstatus (mret_status v)
  ok (record s { csrs = c; mode = supervisor }, none)
mret_mode s machine v = do
  c ← Csr.write s.csrs mstatus (mret_status v)
  ok (record s { csrs = c; mode = machine }, none)
mret_mode s _ v = ok (s, some illegal_instruction)

unfoldable pub mret_exec : Machine → Out
unfolding mret_mode
mret_exec s = do
  pc ← Csr.read s.csrs mepc
  v ← Csr.read s.csrs mstatus
  mret_mode (record s { pc = sext64 pc }) (mode_of_code (bit_and (sar 32 v 11) 0b11)) v

-- One clause for each mnemonic, with the value `a` of rs1 and `i` of the extended immediate.
unfoldable pub i_step : IMnemo → ℕ → ℕ → ℕ → ℕ → ℕ → Machine → Out
unfolding csr_exec ecall_exception mret_exec write_next
i_step addi rd rs1 imm a i s = write_next s rd (add32 a i)
i_step slti rd rs1 imm a i s = write_next s rd (to_int (ltb_ℤ (signed32 a) (signed32 i)))
i_step sltiu rd rs1 imm a i s = write_next s rd (to_int (ltb a i))
i_step xori rd rs1 imm a i s = write_next s rd (bit_xor a i)
i_step ori rd rs1 imm a i s = write_next s rd (bit_or a i)
i_step andi rd rs1 imm a i s = write_next s rd (bit_and a i)
i_step jalr rd rs1 imm a i s = do
  r ← Registers.write s.regs rd (u32 (s.pc + 4))
  ok (record s { pc = sext64 (bit_and (add32 a i) 0xfffffffe); regs = r }, none)
i_step lb rd rs1 imm a i s = do v ← read_byte s.mem (load_address a i); write_next s rd (sext8 v)
i_step lh rd rs1 imm a i s = do
  v ← read_half_word s.mem (load_address a i)
  write_next s rd (sext16 v)
i_step lw rd rs1 imm a i s = do v ← read_word s.mem (load_address a i); write_next s rd v
i_step lbu rd rs1 imm a i s = do v ← read_byte s.mem (load_address a i); write_next s rd v
i_step lhu rd rs1 imm a i s = do v ← read_half_word s.mem (load_address a i); write_next s rd v
i_step slli rd rs1 imm a i s = do guard (ltb imm 32) bad_shift; write_next s rd (u32 (a <<< imm))
i_step srli rd rs1 imm a i s = do guard (ltb imm 32) bad_shift; write_next s rd (a >>> imm)
i_step srai rd rs1 imm a i s = do guard (ltb imm 32) bad_shift; write_next s rd (sar 32 a imm)
i_step csrrw rd rs1 imm a i s = csr_exec s rd (bit_and imm 0xfff) (λ cv. a)
i_step csrrs rd rs1 imm a i s = csr_exec s rd (bit_and imm 0xfff) (λ cv. bit_or a cv)
i_step csrrc rd rs1 imm a i s =
    csr_exec s rd (bit_and imm 0xfff) (λ cv. bit_and a (to_int (cv == 0)))
i_step csrrwi rd rs1 imm a i s = csr_exec s rd (bit_and imm 0xfff) (λ cv. rs1)
i_step csrrsi rd rs1 imm a i s = csr_exec s rd (bit_and imm 0xfff) (λ cv. bit_or cv rs1)
i_step csrrci rd rs1 imm a i s =
    csr_exec s rd (bit_and imm 0xfff) (λ cv. bit_and cv (to_int (rs1 == 0)))
i_step ecall rd rs1 imm a i s = ok (s, some (ecall_exception s.mode))
i_step ebreak rd rs1 imm a i s = ok (s, some breakpoint)
i_step uret rd rs1 imm a i s = err assertion
i_step sret rd rs1 imm a i s = err assertion
i_step mret rd rs1 imm a i s = mret_exec s
i_step ext rd rs1 imm a i s = ok (record s { pc = u64 (s.pc + 4) }, some r0)
i_step extx rd rs1 imm a i s = ok (record s { pc = u64 (s.pc + 4) }, some r1)

-- The fields are bit sets of 5 and 12 bits, so that rs1 can always be read.
unfoldable pub i_exec : IMnemo → ℕ → ℕ → ℕ → Machine → Out
unfolding i_step
i_exec m rd rs1 imm s = do
  a ← Registers.read s.regs rs1
  i_step m rd rs1 imm a (sign_extend 12 imm) s
