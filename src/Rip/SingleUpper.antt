-- ===== src/Rip/SingleUpper.antt =====
-- One U-type instruction alone in the pipeline of lib/RIPSimulator/RIPSimulator.cpp against `exec`
-- of lib/Instructions.cpp.
use rip_sim.Base.{
  ℕ, ◌≡◌, refl, ◌∙◌, ok, true, if◌then◌else◌, arith, ◌<◌, ltb, ◌==◌, update, u64, ◌+◌, ◌^◌,
}
use rip_sim.Insts
use rip_sim.Insts.{Instruction, UMnemo, lui, auipc, u_body, get_rd}
use rip_sim.Registers
use rip_sim.Registers.{Registers}
use rip_sim.Encoding.Reads.{Reads}
use rip_sim.Isa.{u_exec, write_next}
use rip_sim.Isa
use rip_sim.Pipe.{ex_stage}
use rip_sim.Rip.State.{Rip}
use rip_sim.Rip.Alu.{u_value}
use rip_sim.Rip.Extension.{sign_extend_20}
use rip_sim.Rip.Decode.{decode}
use rip_sim.Rip.Exec
use rip_sim.Rip.Exec.{exec}
use rip_sim.Rip.Passing.{rd_of, rd_of-lt, wrote, passed}
use rip_sim.Rip.Single.{machine_of, Agree}

abbrev pub u_instruction : UMnemo → ℕ → ℕ → ℕ → Instruction
u_instruction m rd imm word = record { body = u_body m rd imm; val = word }

rd_eq :
    (m : UMnemo) (rd imm word : ℕ)
    → get_rd (u_instruction m rd imm word) ≡ ok rd
    → rd_of (u_instruction m rd imm word) ≡ rd
unfolding get_rd
rd_eq m rd imm word e = ground (arith, e)

-- The value of both simulators.
pub u_step :
    (m : UMnemo) (rd imm pc : ℕ) (s : Isa.Machine)
    → pc ≡ s.pc
    → u_exec m rd imm s ≡ write_next s rd (u_value m pc (Insts.sign_extend 20 imm))
unfolding u_exec u_value
u_step lui rd imm pc s e = refl
u_step auipc rd imm pc s e = rw e refl

-- lui and auipc, with a word that carries their fields and an immediate of 20 bits, pass decode,
-- execute, memory access and writeback without a fault, and leave in every register but x0 the
-- value that UInstruction::exec of the instruction-level simulator leaves at the same address,
-- which succeeds too.
pub single_u :
    (m : UMnemo) (rd imm word : ℕ) (s : Rip)
    → Reads (u_instruction m rd imm word) (u_body m rd imm)
    → imm < 2 ^ 20
    → s.ps.pcs ex_stage ≡ s.pc
    → Agree (u_instruction m rd imm word) s
unfolding decode exec Isa.exec write_next Registers.write
single_u m rd imm word s reads hi at =
    let (g, gi) = reads in
    let i = u_instruction m rd imm word in
    let x = sign_extend_20 imm hi in
    let v = u_value m (s.ps.pcs ex_stage) (Insts.sign_extend 20 imm) in
    let decoded : Rip = record s { ps = record (s.ps) { de_imm_val = Insts.sign_extend 20 imm } } in
    let executed = Exec.latch v 0 decoded in
    let p = passed i executed tt in
    let w = wrote i p.after in
    let d = rd_eq m rd imm word g in
    let t3 : ltb rd 32 ≡ true = ground (arith, rd_of-lt i) in
    let regs : Registers = if rd == 0 then s.regs else update s.regs rd v in
    record {
      after = w.after;
      machine = record (machine_of s) { regs = regs; pc = u64 (s.pc + 4) };
      returns = rw (gi, x, p.returns) w.returns;
      executes = u_step m rd imm (s.ps.pcs ex_stage) (machine_of s) at ∙ rw t3 refl;
      regs = λ r ne. w.regs r ne ∙ rw (p.ma_rd, p.regs, d) (ground arith);
    }
