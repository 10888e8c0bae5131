-- ===== src/Rip/SingleStore.antt =====
-- One store alone in the pipeline of lib/RIPSimulator/RIPSimulator.cpp against `exec` of
-- lib/Instructions.cpp.
use rip_sim.Base.{
  ℕ, ◌≡◌, ◌≢◌, refl, ok, err, Result, ◌>>=◌, none, true, false, arith, ◌<◌, ltb, ◌==◌, u64, u32,
  ◌+◌, ◌^◌, add32, sext64,
}
use rip_sim.Memory.{Memory}
use rip_sim.Insts
use rip_sim.Insts.{Instruction, SMnemo, sb, sh, sw, s_body}
use rip_sim.Registers
use rip_sim.Encoding.Reads.{Reads}
use rip_sim.Isa.{Machine, s_exec, s_effect, store}
use rip_sim.Isa
use rip_sim.Pipe.{ex_stage, ma_stage}
use rip_sim.Rip.State.{Rip}
use rip_sim.Rip.Extension.{sign_extend_12}
use rip_sim.Rip.Decode.{decode}
use rip_sim.Rip.Exec.{exec}
use rip_sim.Rip.MemoryAccess
use rip_sim.Rip.MemoryAccess.{memoryaccess, access, is_epilogue}
use rip_sim.Rip.WriteBack.{writeback, set_wb_imm_val}
use rip_sim.Rip.Single.{single, operand_bubbles, machine_of}

abbrev pub s_instruction : SMnemo → ℕ → ℕ → ℕ → ℕ → Instruction
s_instruction m rs1 rs2 imm word = record { body = s_body m rs1 rs2 imm; val = word }

-- Both simulators write the same memory, or both fault; the pipeline changes no register.
pub record Stores (i : Instruction) (s : Rip) : Type 0 where
  pub written : Result Memory
  pub after : Memory → Rip
  pub executes :
      Isa.exec i.body (machine_of s)
      ≡ (do m ← written; ok (record (machine_of s) { mem = m; pc = u64 (s.pc + 4) }, none))
  pub returns : single i s ≡ (do m ← written; ok (after m))
  pub mem : (m : Memory) → (after m).mem ≡ m
  pub regs : (m : Memory) → (after m).regs ≡ s.regs

-- The access of MA.
access-store :
    (m : SMnemo) (rs1 rs2 imm ad : ℕ) (s : Rip)
    → access (s_body m rs1 rs2 imm) ad s ≡ (do
      mem ← store m s.mem ad s.ps.ex_rs2_val
      ok (MemoryAccess.latch ad (record s { mem = mem })))
unfolding access store
access-store sb rs1 rs2 imm ad s = refl
access-store _ rs1 rs2 imm ad s = refl

-- The end of the pipeline.
finish_store :
    (r : Result Memory) (f : Memory → Rip) (m : SMnemo) (rs1 rs2 imm word : ℕ)
    → (do s ← (do mem ← r; ok (f mem)); writeback (s_instruction m rs1 rs2 imm word) s)
      ≡ (do mem ← r; ok (set_wb_imm_val 0 (f mem)))
unfolding writeback
finish_store (ok mem) f m rs1 rs2 imm word = refl
finish_store (err e) f m rs1 rs2 imm word = refl

s_effect_low :
    (m : SMnemo) (ad b : ℕ) (s : Machine)
    → ad < 2 ^ 31
    → ad ≢ 0x10000000
    → is_epilogue s.mode ≡ false
    → s_effect m (sext64 ad) b s
      ≡ (do mem ← store m s.mem ad b; ok (record s { mem = mem; pc = u64 (s.pc + 4) }, none))
unfolding s_effect
s_effect_low m ad b s low mmio mode =
    let e : sext64 ad ≡ ad = ground arith in
    let t : (u32 ad == 0x10000000) ≡ false = ground arith in rw (e, t, mode) refl

-- A store whose word carries its fields (registers below 32, the immediate of 12 bits), to an
-- address below 2 ^ 31 other than the MMIO address and not in epilogue mode, passes decode,
-- execute, memory access and writeback, with bubbles in EX and MA, and leaves the memory that
-- SInstruction::exec of the instruction-level simulator leaves, and the registers as they were; if
-- one of the two faults, the other ends in the same fault.
pub single_s :
    (m : SMnemo) (rs1 rs2 imm word : ℕ) (s : Rip)
    → Reads (s_instruction m rs1 rs2 imm word) (s_body m rs1 rs2 imm)
    → rs1 < 32
    → rs2 < 32
    → imm < 2 ^ 12
    → s.ps.insts ex_stage ≡ none
    → s.ps.insts ma_stage ≡ none
    → is_epilogue s.mode ≡ false
    → add32 (s.regs rs1) (Insts.sign_extend 12 imm) < 2 ^ 31
    → add32 (s.regs rs1) (Insts.sign_extend 12 imm) ≢ 0x10000000
    → Stores (s_instruction m rs1 rs2 imm word) s
unfolding decode exec Isa.exec s_exec s_effect memoryaccess Registers.read
single_s m rs1 rs2 imm word s reads h1 h2 hi no_ex no_ma mode low mmio =
    let (g1, g2, gi) = reads in
    let i = s_instruction m rs1 rs2 imm word in
    let a = s.regs rs1 in
    let b = s.regs rs2 in
    let ad = add32 a (Insts.sign_extend 12 imm) in
    let first : Rip = record s { ps = record (s.ps) { de_rs1_val = a } } in
    let executed : Rip = record s {
      ps = record (s.ps) {
        de_rs1_val = a;
        de_rs2_val = b;
        de_imm_val = Insts.sign_extend 12 imm;
        ex_rs2_val = b;
        ex_rd_val = ad;
        ex_csr_val = 0;
        ex_imm_val = Insts.sign_extend 12 imm;
      };
    } in
    let e1 = operand_bubbles s rs1 no_ex no_ma h1 in
    let e2 = operand_bubbles first rs2 no_ex no_ma h2 in
    let x = sign_extend_12 imm hi in
    let t1 : ltb rs1 32 ≡ true = ground arith in
    let t2 : ltb rs2 32 ≡ true = ground arith in
    let t3 : (ad == 0x10000000) ≡ false = ground arith in
    record {
      written = store m s.mem ad b;
      after = λ mem. set_wb_imm_val 0 (MemoryAccess.latch ad (record executed { mem = mem }));
      executes = rw (t1, t2) (s_effect_low m ad b (machine_of s) low mmio mode);
      returns =
          rw (g1, g2, e1, e2, gi, x, t3, mode, access-store m rs1 rs2 imm ad executed)
            (finish_store (store m s.mem ad b) _ m rs1 rs2 imm word);
      mem = λ mem. refl;
      regs = λ mem. refl;
    }
