-- ===== src/Rip/SingleIndirect.antt =====
-- One jalr alone in the pipeline of lib/RIPSimulator/RIPSimulator.cpp against `exec` of
-- lib/Instructions.cpp.
use rip_sim.Base.{
  ℕ, ◌≡◌, ◌≢◌, refl, ◌∙◌, ok, none, some, true, if◌then◌else◌, arith, ◌<◌, ltb, ◌==◌, update, u32,
  sext64, add32, bit_and, bit_or, bit_and_field, bit_and_ones, bit_or_disjoint, bit_or_split, ◌>>>◌,
  ◌+◌, ◌-◌, ◌/◌, ◌%◌, ◌^◌, ◌↔◌,
}
use native.Mathlib.Decide.{dec_lt}
use rip_sim.Insts
use rip_sim.Insts.{Instruction, jalr, i_body, get_rd}
use rip_sim.Registers
use rip_sim.Registers.{Registers}
use rip_sim.Encoding.Reads.{Reads}
use rip_sim.Isa.{Machine, i_exec, i_step}
use rip_sim.Isa
use rip_sim.Pipe.{if_stage, de_stage, ex_stage, ma_stage}
use rip_sim.Rip.State.{Rip, sign_extend}
use rip_sim.Rip.Control.{jalr_jump}
use rip_sim.Rip.Extension.{sign_extend_12}
use rip_sim.Rip.Decode.{decode}
use rip_sim.Rip.Exec
use rip_sim.Rip.Exec.{exec, after_value}
use rip_sim.Rip.Alu.{i_value, csr_value}
use rip_sim.Rip.Passing.{rd_of, rd_of-lt, wrote, passed}
use rip_sim.Rip.Single.{single, machine_of, operand_bubbles}
use rip_sim.Rip.SingleImmediate.{i_instruction}

-- Both finish the jump and agree on all registers but x0; the pipeline drops what it has fetched
-- behind the jump, and is redirected to the PC of the instruction-level simulator exactly if the
-- sum of rs1 and the offset is even.
pub record JumpsTo (i : Instruction) (sum : ℕ) (s : Rip) : Type 0 where
  pub after : Rip
  pub machine : Machine
  pub returns : single i s ≡ ok after
  pub executes : Isa.exec i.body (machine_of s) ≡ ok (machine, none)
  pub regs : (r : ℕ) → r ≢ 0 → after.regs r ≡ machine.regs r
  pub redirected : (after.ps.branch_pc ≡ some machine.pc) ↔ (sum % 2 ≡ 0)
  pub dropped :
      (after.ps.invalid_stages if_stage ≡ true) × (after.ps.invalid_stages de_stage ≡ true)

-- Bit 0 cleared.
even_part : (x : ℕ) → x < 2 ^ 32 → bit_and x 0xfffffffe ≡ x - x % 2
even_part x h = bit_and_field 31 1 x ∙ omega arith

sext_even :
    (x : ℕ) → x < 2 ^ 32 → (some (sext64 x) ≡ some (sext64 (bit_and x 0xfffffffe))) ↔ (x % 2 ≡ 0)
sext_even x h = let e = even_part x h in (λ p. ground arith, λ p. ground arith)

rd_eq :
    (rd rs1 imm word : ℕ)
    → get_rd (i_instruction jalr rd rs1 imm word) ≡ ok rd
    → rd_of (i_instruction jalr rd rs1 imm word) ≡ rd
unfolding get_rd
rd_eq rd rs1 imm word e = ground (arith, e)

-- A value that is extended from bit 11 is not changed by extending it again.
or_ones :
    (l : ℕ) → l < 2 ^ 12 → bit_or (2 ^ 32 - 2 ^ 12) (2 ^ 32 - 2 ^ 12 + l) ≡ 2 ^ 32 - 2 ^ 12 + l
or_ones l h =
    let low : bit_or 0 l ≡ l = omega (arith, bit_or_disjoint 12 0 l (omega arith) h) in
    let qe : (2 ^ 32 - 2 ^ 12 + l) / 2 ^ 12 ≡ 2 ^ 20 - 1 = omega arith in
    let le : (2 ^ 32 - 2 ^ 12 + l) % 2 ^ 12 ≡ l = omega arith in
    bit_or_split 12 (2 ^ 32 - 2 ^ 12) (2 ^ 32 - 2 ^ 12 + l) ∙ rw (qe, le, low) refl

extend_twice :
    (x : ℕ) → x < 2 ^ 12 → sign_extend (Insts.sign_extend 12 x) 12 ≡ Insts.sign_extend 12 x
extend_twice x h = elim (dec_lt x (2 ^ 11)) [
  | yes lt ↦ ground (arith, bit_and_ones 1 (x >>> 11))
  | no ge ↦ ground (arith, bit_and_ones 1 ((2 ^ 32 - 2 ^ 12 + x) >>> 11), or_ones x h)
]

-- jalr, with a word that carries its fields (rs1 below 32, the offset of 12 bits) and bubbles in
-- EX and MA, passes decode, execute, memory access and writeback without a fault, and leaves in
-- every register but x0 the value that IInstruction::exec of the instruction-level simulator
-- leaves at the same address; IF and DE are marked invalid. The branch target is the PC that
-- IInstruction::exec leaves exactly if the sum of rs1 and the offset is even: the pipeline does
-- not clear bit 0.
pub single_jalr :
    (rd rs1 imm word : ℕ) (s : Rip)
    → Reads (i_instruction jalr rd rs1 imm word) (i_body jalr rd rs1 imm)
    → rs1 < 32
    → imm < 2 ^ 12
    → s.ps.insts ex_stage ≡ none
    → s.ps.insts ma_stage ≡ none
    → s.ps.pcs ex_stage ≡ s.pc
    → JumpsTo (i_instruction jalr rd rs1 imm word) (add32 (s.regs rs1) (Insts.sign_extend 12 imm)) s
unfolding decode exec after_value i_value csr_value jalr_jump Isa.exec i_exec i_step Registers.read
    Registers.write
single_jalr rd rs1 imm word s reads h1 hi no_ex no_ma at =
    let (g, g1, gi) = reads in
    let i = i_instruction jalr rd rs1 imm word in
    let a = s.regs rs1 in
    let sum = add32 a (Insts.sign_extend 12 imm) in
    let decoded : Rip = record s {
      ps = record (s.ps) { de_rs1_val = a; de_imm_val = Insts.sign_extend 12 imm };
    } in
    let e1 = operand_bubbles s rs1 no_ex no_ma h1 in
    let x = sign_extend_12 imm hi in
    let executed = Exec.latch (u32 (s.ps.pcs ex_stage + 4)) 0 (jalr_jump decoded) in
    let p = passed i executed tt in
    let w = wrote i p.after in
    let d = rd_eq rd rs1 imm word g in
    let t1 : ltb rs1 32 ≡ true = ground arith in
    let t3 : ltb rd 32 ≡ true = ground (arith, rd_of-lt i) in
    let v = u32 (s.pc + 4) in
    let regs : Registers = if rd == 0 then s.regs else update s.regs rd v in
    let target : w.after.ps.branch_pc ≡ some (sext64 sum) =
      w.branch_pc ∙ p.branch_pc ∙ rw (extend_twice imm hi) refl in
    record {
      after = w.after;
      machine = record (machine_of s) { regs = regs; pc = sext64 (bit_and sum 0xfffffffe) };
      returns = rw (g1, e1, gi, x, p.returns) w.returns;
      executes = rw (t1, t3) refl;
      regs = λ r ne. w.regs r ne ∙ rw (p.ma_rd, p.regs, d, at) (ground arith);
      redirected = rw target (sext_even sum (omega arith));
      dropped = rw (w.invalid, p.invalid) (refl, refl);
    }
