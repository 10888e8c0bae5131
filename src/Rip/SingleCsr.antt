-- ===== src/Rip/SingleCsr.antt =====
-- One CSR instruction alone in the pipeline of lib/RIPSimulator/RIPSimulator.cpp against `exec` of
-- lib/Instructions.cpp.
use rip_sim.Base.{
  ℕ, ◌≡◌, ◌≢◌, refl, ◌∙◌, ok, none, true, if◌then◌else◌, arith, ◌<◌, ltb, ◌==◌, update, u64, bit_or,
  bit_or_comm, Bool-cases, inl, inr, bit_and, bit_and_ones, ◌+◌, ◌^◌,
}
use rip_sim.Insts
use rip_sim.Insts.{Instruction, IMnemo, csrrw, csrrs, csrrwi, csrrsi, i_body, get_rd}
use rip_sim.Registers
use rip_sim.Registers.{Registers}
use rip_sim.Csr
use rip_sim.Csr.{Csrs}
use rip_sim.Encoding.Reads.{Reads}
use rip_sim.Isa.{Machine, i_exec, i_step, write_next}
use rip_sim.Isa
use rip_sim.Pipe.{ex_stage, ma_stage}
use rip_sim.Rip.State.{Rip, is_csr, writes_csr}
use rip_sim.Rip.Extension.{sign_extend_12}
use rip_sim.Rip.Decode.{decode, forward_csr, is_csr_immediate}
use rip_sim.Rip.Exec
use rip_sim.Rip.Exec.{exec, after_value}
use rip_sim.Rip.Alu.{i_value, csr_value}
use rip_sim.Rip.Passing.{rd_of, rd_of-lt, wrote, passed, IsAlu}
use rip_sim.Rip.Single.{single, machine_of, operand_bubbles}
use rip_sim.Rip.SingleImmediate.{i_instruction}

-- Both finish without an exception and agree on the CSRs and on all registers but x0.
pub record AgreeOnCsrs (i : Instruction) (s : Rip) : Type 0 where
  pub after : Rip
  pub machine : Machine
  pub returns : single i s ≡ ok after
  pub executes : Isa.exec i.body (machine_of s) ≡ ok (machine, none)
  pub regs : (r : ℕ) → r ≢ 0 → after.regs r ≡ machine.regs r
  pub csrs : after.csrs ≡ machine.csrs

-- The instructions that write or set; those that clear differ.
abbrev pub IsWriteOrSet : IMnemo → Type 0
IsWriteOrSet csrrw = Unit
IsWriteOrSet csrrs = Unit
IsWriteOrSet csrrwi = Unit
IsWriteOrSet csrrsi = Unit
IsWriteOrSet _ = ⊥

-- The operand of the instruction, and the new value of the CSR.
abbrev operand_of : IMnemo → ℕ → ℕ → ℕ
operand_of m rs1 a = if is_csr_immediate (i_body m 0 rs1 0) then rs1 else a

abbrev new_value : IMnemo → ℕ → ℕ → ℕ
new_value csrrs cv a = bit_or cv a
new_value csrrsi cv a = bit_or cv a
new_value _ cv a = a

same_class :
    (m : IMnemo) (rd rs1 imm : ℕ)
    → IsWriteOrSet m
    → (is_csr (i_body m rd rs1 imm) ≡ true)
      × (is_csr_immediate (i_body m rd rs1 imm) ≡ is_csr_immediate (i_body m 0 rs1 0))
same_class csrrw rd rs1 imm h = (refl, refl)
same_class csrrs rd rs1 imm h = (refl, refl)
same_class csrrwi rd rs1 imm h = (refl, refl)
same_class csrrsi rd rs1 imm h = (refl, refl)
same_class _ rd rs1 imm h = absurd h

abbrev decoded : IMnemo → ℕ → ℕ → Rip → Rip
decoded m rs1 imm s = record s {
  ps = record (s.ps) {
    de_rs1_val = operand_of m rs1 (s.regs rs1);
    de_csr_val = s.csrs imm;
    de_imm_val = Insts.sign_extend 12 imm;
  };
}

decode_csr :
    (m : IMnemo) (rd rs1 imm word : ℕ) (s : Rip)
    → IsWriteOrSet m
    → Reads (i_instruction m rd rs1 imm word) (i_body m rd rs1 imm)
    → rs1 < 32
    → imm < 2 ^ 12
    → s.ps.insts ex_stage ≡ none
    → s.ps.insts ma_stage ≡ none
    → decode (i_instruction m rd rs1 imm word) s ≡ ok (decoded m rs1 imm s)
unfolding decode forward_csr writes_csr Csr.read
decode_csr m rd rs1 imm word s h reads h1 hi no_ex no_ma =
    let (g, g1, gi) = reads in
    let (c, same) = same_class m rd rs1 imm h in
    let e1 = operand_bubbles s rs1 no_ex no_ma h1 in
    let x = sign_extend_12 imm hi in
    let t : ltb imm 4096 ≡ true = ground arith in
    elim (Bool-cases (is_csr_immediate (i_body m 0 rs1 0))) [
      | inl e ↦ rw (same, e, c, g1, gi, no_ex, no_ma, t, x) refl
      | inr e ↦ rw (same, e, c, g1, e1, gi, no_ex, no_ma, t, x) refl
    ]

exec_csr :
    (m : IMnemo) (rd rs1 imm word : ℕ) (s : Rip)
    → IsWriteOrSet m
    → exec (i_instruction m rd rs1 imm word) s
      ≡ ok (Exec.latch s.ps.de_csr_val (new_value m s.ps.de_csr_val s.ps.de_rs1_val) s, none)
unfolding exec after_value i_value csr_value
exec_csr csrrw rd rs1 imm word s h = refl
exec_csr csrrs rd rs1 imm word s h = refl
exec_csr csrrwi rd rs1 imm word s h = refl
exec_csr csrrsi rd rs1 imm word s h = refl
exec_csr _ rd rs1 imm word s h = absurd h

-- The two disjunctions have their operands in a different order.
isa_value :
    (m : IMnemo) (rd rs1 imm i : ℕ) (s : Machine)
    → IsWriteOrSet m
    → bit_and imm 0xfff ≡ imm
    → ltb imm 4096 ≡ true
    → i_step m rd rs1 imm (s.regs rs1) i s
      ≡ write_next
          (record s {
            csrs = update s.csrs imm (new_value m (s.csrs imm) (operand_of m rs1 (s.regs rs1)));
          })
          rd
          (s.csrs imm)
unfolding i_step Csr.read Csr.write
isa_value csrrw rd rs1 imm i s h low t = rw (low, t) refl
isa_value csrrs rd rs1 imm i s h low t = rw (low, t, bit_or_comm (s.regs rs1) (s.csrs imm)) refl
isa_value csrrwi rd rs1 imm i s h low t = rw (low, t) refl
isa_value csrrsi rd rs1 imm i s h low t = rw (low, t) refl
isa_value _ rd rs1 imm i s h low t = absurd h

isa_csr :
    (m : IMnemo) (rd rs1 imm : ℕ) (s : Machine)
    → IsWriteOrSet m
    → rs1 < 32
    → imm < 2 ^ 12
    → i_exec m rd rs1 imm s
      ≡ write_next
          (record s {
            csrs = update s.csrs imm (new_value m (s.csrs imm) (operand_of m rs1 (s.regs rs1)));
          })
          rd
          (s.csrs imm)
unfolding i_exec Registers.read
isa_csr m rd rs1 imm s h h1 hi =
    let t1 : ltb rs1 32 ≡ true = ground arith in
    let t : ltb imm 4096 ≡ true = ground arith in
    let low : bit_and imm 0xfff ≡ imm = bit_and_ones 12 imm ∙ omega arith in
    rw t1 (isa_value m rd rs1 imm (Insts.sign_extend 12 imm) s h low t)

-- The CSR address that WB takes from the sign-extended immediate.
csr_address : (imm : ℕ) → imm < 2 ^ 12 → bit_and (Insts.sign_extend 12 imm) 0xfff ≡ imm
csr_address imm h = bit_and_ones 12 (Insts.sign_extend 12 imm) ∙ ground arith

rd_eq :
    (m : IMnemo) (rd rs1 imm word : ℕ)
    → get_rd (i_instruction m rd rs1 imm word) ≡ ok rd
    → rd_of (i_instruction m rd rs1 imm word) ≡ rd
unfolding get_rd
rd_eq m rd rs1 imm word e = ground (arith, e)

is_alu : (m : IMnemo) (rd rs1 imm : ℕ) → IsWriteOrSet m → IsAlu (i_body m rd rs1 imm)
is_alu csrrw rd rs1 imm h = tt
is_alu csrrs rd rs1 imm h = tt
is_alu csrrwi rd rs1 imm h = tt
is_alu csrrsi rd rs1 imm h = tt
is_alu _ rd rs1 imm h = absurd h

-- A CSR instruction that writes or sets (csrrw, csrrs, csrrwi, csrrsi), whose word carries its
-- fields (rs1 below 32, the CSR address of 12 bits), with bubbles in EX and MA, passes decode,
-- execute, memory access and writeback without a fault, and leaves all CSRs, and all registers but
-- x0, as IInstruction::exec of the instruction-level simulator leaves them, which succeeds too.
pub single_csr :
    (m : IMnemo) (rd rs1 imm word : ℕ) (s : Rip)
    → IsWriteOrSet m
    → Reads (i_instruction m rd rs1 imm word) (i_body m rd rs1 imm)
    → rs1 < 32
    → imm < 2 ^ 12
    → s.ps.insts ex_stage ≡ none
    → s.ps.insts ma_stage ≡ none
    → AgreeOnCsrs (i_instruction m rd rs1 imm word) s
unfolding Isa.exec write_next Registers.write
single_csr m rd rs1 imm word s h reads h1 hi no_ex no_ma =
    let i = i_instruction m rd rs1 imm word in
    let old = s.csrs imm in
    let new = new_value m old (operand_of m rs1 (s.regs rs1)) in
    let d1 = decode_csr m rd rs1 imm word s h reads h1 hi no_ex no_ma in
    let d2 = exec_csr m rd rs1 imm word (decoded m rs1 imm s) h in
    let executed = Exec.latch old new (decoded m rs1 imm s) in
    let p = passed i executed (is_alu m rd rs1 imm h) in
    let w = wrote i p.after in
    let d = rd_eq m rd rs1 imm word reads.0 in
    let c = (same_class m rd rs1 imm h).0 in
    let t3 : ltb rd 32 ≡ true = ground (arith, rd_of-lt i) in
    let regs : Registers = if rd == 0 then s.regs else update s.regs rd old in
    record {
      after = w.after;
      machine = record (machine_of s) {
        regs = regs;
        csrs = update s.csrs imm new;
        pc = u64 (s.pc + 4);
      };
      returns = rw (d1, d2, p.returns) w.returns;
      executes = isa_csr m rd rs1 imm (machine_of s) h h1 hi ∙ rw t3 refl;
      regs = λ r ne. w.regs r ne ∙ rw (p.ma_rd, p.regs, d) (ground arith);
      csrs = w.csrs ∙ rw (c, p.csrs, p.ma_csr, p.ma_imm, csr_address imm hi) refl;
    }
