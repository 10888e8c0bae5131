-- ===== src/Rip/SingleJump.antt =====
-- One jal alone in the pipeline of lib/RIPSimulator/RIPSimulator.cpp against `exec` of
-- lib/Instructions.cpp.
use rip_sim.Base.{
  ℕ, ◌≡◌, ◌≢◌, refl, ◌∙◌, ok, none, some, true, if◌then◌else◌, arith, ◌<◌, ◌≤◌, ltb, ◌==◌, update,
  u64, u32, sext64, ◌+◌, ◌-◌, ◌^◌, ◌⊎◌,
}
use rip_sim.Insts
use rip_sim.Insts.{Instruction, JMnemo, jal, j_body, get_rd}
use rip_sim.Registers
use rip_sim.Registers.{Registers}
use rip_sim.Encoding.Reads.{Reads}
use rip_sim.Isa.{Machine, j_exec}
use rip_sim.Isa
use rip_sim.Pipe.{if_stage, de_stage, ex_stage}
use rip_sim.Rip.State.{Rip, sign_extend}
use rip_sim.Rip.Control.{jal_jump}
use rip_sim.Rip.Extension.{sign_extend_jal}
use rip_sim.Rip.Decode.{decode}
use rip_sim.Rip.Exec
use rip_sim.Rip.Exec.{exec}
use rip_sim.Rip.Passing.{rd_of, rd_of-lt, wrote, passed}
use rip_sim.Rip.Single.{single, machine_of}

abbrev pub j_instruction : JMnemo → ℕ → ℕ → ℕ → Instruction
j_instruction m rd imm word = record { body = j_body m rd imm; val = word }

-- Both finish the jump and agree on all registers but x0; the pipeline is redirected to the PC of
-- the instruction-level simulator, and drops what it has fetched behind the jump.
pub record Jumps (i : Instruction) (s : Rip) : Type 0 where
  pub after : Rip
  pub machine : Machine
  pub returns : single i s ≡ ok after
  pub executes : Isa.exec i.body (machine_of s) ≡ ok (machine, none)
  pub regs : (r : ℕ) → r ≢ 0 → after.regs r ≡ machine.regs r
  pub redirected : after.ps.branch_pc ≡ some machine.pc
  pub dropped :
      (after.ps.invalid_stages if_stage ≡ true) × (after.ps.invalid_stages de_stage ≡ true)

rd_eq :
    (m : JMnemo) (rd imm word : ℕ)
    → get_rd (j_instruction m rd imm word) ≡ ok rd
    → rd_of (j_instruction m rd imm word) ≡ rd
unfolding get_rd
rd_eq m rd imm word e = ground (arith, e)

-- jal, with a word that carries its fields and an offset of -2 ^ 19 to 2 ^ 19 - 1, passes decode,
-- execute, memory access and writeback without a fault, leaves in every register but x0 the value
-- that JInstruction::exec of the instruction-level simulator leaves at the same address, and makes
-- its PC the branch target; IF and DE are marked invalid.
pub single_j :
    (m : JMnemo) (rd imm word : ℕ) (s : Rip)
    → Reads (j_instruction m rd imm word) (j_body m rd imm)
    → imm < 2 ^ 21
    → (imm < 2 ^ 19) ⊎ (2 ^ 21 - 2 ^ 19 ≤ imm)
    → s.ps.pcs ex_stage ≡ s.pc
    → Jumps (j_instruction m rd imm word) s
unfolding decode exec jal_jump Isa.exec j_exec Registers.write
single_j jal rd imm word s reads hi near at =
    let (g, gi) = reads in
    let i = j_instruction jal rd imm word in
    let x = (sign_extend_jal imm hi).1 near in
    let decoded : Rip = record s { ps = record (s.ps) { de_imm_val = sign_extend imm 20 } } in
    let executed = Exec.latch (u32 (s.ps.pcs ex_stage + 4)) 0 (jal_jump decoded) in
    let p = passed i executed tt in
    let w = wrote i p.after in
    let d = rd_eq jal rd imm word g in
    let t3 : ltb rd 32 ≡ true = ground (arith, rd_of-lt i) in
    let v = u32 (s.pc + 4) in
    let regs : Registers = if rd == 0 then s.regs else update s.regs rd v in
    record {
      after = w.after;
      machine = record (machine_of s) {
        regs = regs;
        pc = u64 (s.pc + sext64 (Insts.sign_extend 21 imm));
      };
      returns = rw (gi, p.returns) w.returns;
      executes = rw t3 refl;
      regs = λ r ne. w.regs r ne ∙ rw (p.ma_rd, p.regs, d, at) (ground arith);
      redirected = w.branch_pc ∙ p.branch_pc ∙ rw (x, at) refl;
      dropped = rw (w.invalid, p.invalid) (refl, refl);
    }
