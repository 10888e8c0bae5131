-- ===== src/Rip/Single.antt =====
-- One R-type instruction alone in the pipeline of lib/RIPSimulator/RIPSimulator.cpp against `exec`
-- of lib/Instructions.cpp.
use rip_sim.Base.{
  ℕ, ◌≡◌, ◌≢◌, refl, ◌∙◌, ok, Result, ◌>>=◌, none, true, if◌then◌else◌, arith, ◌<◌, ltb, ◌==◌,
  update, u64, ◌+◌,
}
use rip_sim.Insts.{Instruction, RMnemo, r_body, get_rd}
use rip_sim.Registers
use rip_sim.Registers.{Registers}
use rip_sim.Encoding.Reads.{Reads}
use rip_sim.Isa.{Machine, r_exec, r_result, write_next}
use rip_sim.Isa
use rip_sim.Pipe.{ex_stage, ma_stage}
use rip_sim.Rip.State.{Rip}
use rip_sim.Rip.Alu.{r_value}
use rip_sim.Rip.Agree.{r_value-r_result}
use rip_sim.Rip.Decode.{decode, operand, forward, writes_rd}
use rip_sim.Rip.Exec
use rip_sim.Rip.Exec.{exec}
use rip_sim.Rip.MemoryAccess.{memoryaccess}
use rip_sim.Rip.WriteBack.{writeback}
use rip_sim.Rip.Passing.{rd_of, rd_of-lt, wrote, passed}

-- The four stages, one after the other.
abbrev pub single : Instruction → Rip → Result Rip
single i s = do s ← decode i s; (s, e) ← exec i s; s ← memoryaccess i s; writeback i s

pub operand_bubbles :
    (s : Rip) (r : ℕ)
    → s.ps.insts ex_stage ≡ none
    → s.ps.insts ma_stage ≡ none
    → r < 32
    → operand s r ≡ ok (s.regs r)
unfolding operand forward writes_rd Registers.read
operand_bubbles s r no_ex no_ma h = rw (no_ex, no_ma) (ground arith)

-- An R-type object, with the word that it keeps.
abbrev pub r_instruction : RMnemo → ℕ → ℕ → ℕ → ℕ → Instruction
r_instruction m rd rs1 rs2 word = record { body = r_body m rd rs1 rs2; val = word }

abbrev pub machine_of : Rip → Machine
machine_of s = record {
  pc = s.pc;
  regs = s.regs;
  mem = s.mem;
  csrs = s.csrs;
  mode = s.mode;
  console = s.console;
}

-- Both simulators finish the instruction, and agree on all registers but x0.
pub record Agree (i : Instruction) (s : Rip) : Type 0 where
  pub after : Rip
  pub machine : Machine
  pub returns : single i s ≡ ok after
  pub executes : Isa.exec i.body (machine_of s) ≡ ok (machine, none)
  pub regs : (r : ℕ) → r ≢ 0 → after.regs r ≡ machine.regs r

rd_eq :
    (m : RMnemo) (rd rs1 rs2 word : ℕ)
    → get_rd (r_instruction m rd rs1 rs2 word) ≡ ok rd
    → rd_of (r_instruction m rd rs1 rs2 word) ≡ rd
unfolding get_rd
rd_eq m rd rs1 rs2 word e = ground (arith, e)

-- An R-type instruction whose word carries its fields (with rs1 and rs2 below 32) passes decode,
-- execute, memory access and writeback without a fault, with bubbles in EX and MA, and leaves in
-- every register but x0 the value that RInstruction::exec of the instruction-level simulator
-- leaves, which succeeds too.
pub single_r :
    (m : RMnemo) (rd rs1 rs2 word : ℕ) (s : Rip)
    → Reads (r_instruction m rd rs1 rs2 word) (r_body m rd rs1 rs2)
    → rs1 < 32
    → rs2 < 32
    → s.ps.insts ex_stage ≡ none
    → s.ps.insts ma_stage ≡ none
    → Agree (r_instruction m rd rs1 rs2 word) s
unfolding decode exec Isa.exec r_exec write_next Registers.read Registers.write
single_r m rd rs1 rs2 word s reads h1 h2 no_ex no_ma =
    let (g, g1, g2) = reads in
    let i = r_instruction m rd rs1 rs2 word in
    let a = s.regs rs1 in
    let b = s.regs rs2 in
    let first : Rip = record s { ps = record (s.ps) { de_rs1_val = a } } in
    let decoded : Rip = record s {
      ps = record (s.ps) { de_rs1_val = a; de_rs2_val = b; de_imm_val = 0 };
    } in
    let e1 = operand_bubbles s rs1 no_ex no_ma h1 in
    let e2 = operand_bubbles first rs2 no_ex no_ma h2 in
    let executed = Exec.latch (r_value m a b) 0 decoded in
    let p = passed i executed tt in
    let w = wrote i p.after in
    let d = rd_eq m rd rs1 rs2 word g in
    let v = r_result m a b in
    let t1 : ltb rs1 32 ≡ true = ground arith in
    let t2 : ltb rs2 32 ≡ true = ground arith in
    let t3 : ltb rd 32 ≡ true = ground (arith, rd_of-lt i) in
    let regs : Registers = if rd == 0 then s.regs else update s.regs rd v in
    record {
      after = w.after;
      machine = record (machine_of s) { regs = regs; pc = u64 (s.pc + 4) };
      returns = rw (g1, g2, e1, e2, p.returns) w.returns;
      executes = rw (t1, t2, t3) refl;
      regs = λ r ne. w.regs r ne ∙ rw (p.ma_rd, p.regs, d, r_value-r_result m a b) (ground arith);
    }
