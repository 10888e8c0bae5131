-- ===== src/Rip/SingleImmediate.antt =====
-- One arithmetic I-type instruction alone in the pipeline of lib/RIPSimulator/RIPSimulator.cpp
-- against `exec` of lib/Instructions.cpp.
use rip_sim.Base.{
  ℕ, ◌≡◌, refl, ◌∙◌, ok, some, none, true, false, if◌then◌else◌, arith, ◌<◌, ltb, ◌==◌, update, u64,
  ◌+◌, ◌^◌, ap, u32, ◌<<<◌, ◌>>>◌, sar,
}
use rip_sim.Insts.{
  Instruction, Body, IMnemo, i_body, get_rd, get_rs1, get_i_imm, addi, slti, sltiu, xori, ori, andi,
  slli, srli, srai,
}
use rip_sim.Insts
use rip_sim.Registers
use rip_sim.Registers.{Registers}
use rip_sim.Encoding.Reads.{Reads}
use rip_sim.Isa.{Machine, i_exec, write_next, Out}
use rip_sim.Isa
use rip_sim.Pipe.{ex_stage, ma_stage}
use rip_sim.Rip.State.{Rip, is_csr}
use rip_sim.Rip.Alu.{i_value}
use rip_sim.Rip.Extension.{sign_extend_12}
use rip_sim.Rip.Decode.{decode, is_csr_immediate}
use rip_sim.Rip.Exec
use rip_sim.Rip.Exec.{exec, after_value}
use rip_sim.Rip.Passing.{rd_of, rd_of-lt, wrote, passed, IsAlu}
use rip_sim.Rip.Single.{operand_bubbles, machine_of, Agree}

-- The mnemonics that compute from rs1 and the immediate alone.
abbrev pub IsArithmetic : IMnemo → Type 0
IsArithmetic addi = Unit
IsArithmetic slti = Unit
IsArithmetic sltiu = Unit
IsArithmetic xori = Unit
IsArithmetic ori = Unit
IsArithmetic andi = Unit
IsArithmetic slli = Unit
IsArithmetic srli = Unit
IsArithmetic srai = Unit
IsArithmetic _ = ⊥

-- The shifts need an amount below 32.
abbrev pub InRange : IMnemo → ℕ → Type 0
InRange slli imm = imm < 32
InRange srli imm = imm < 32
InRange srai imm = imm < 32
InRange _ imm = imm < 2 ^ 12

abbrev pub i_instruction : IMnemo → ℕ → ℕ → ℕ → ℕ → Instruction
i_instruction m rd rs1 imm word = record { body = i_body m rd rs1 imm; val = word }

-- What is not asked of an arithmetic instruction.
pub no_csr :
    (m : IMnemo) (rd rs1 imm : ℕ)
    → IsArithmetic m
    → (is_csr (i_body m rd rs1 imm) ≡ false)
      × (is_csr_immediate (i_body m rd rs1 imm) ≡ false)
      × IsAlu (i_body m rd rs1 imm)
no_csr addi rd rs1 imm h = (refl, refl, tt)
no_csr slti rd rs1 imm h = (refl, refl, tt)
no_csr sltiu rd rs1 imm h = (refl, refl, tt)
no_csr xori rd rs1 imm h = (refl, refl, tt)
no_csr ori rd rs1 imm h = (refl, refl, tt)
no_csr andi rd rs1 imm h = (refl, refl, tt)
no_csr slli rd rs1 imm h = (refl, refl, tt)
no_csr srli rd rs1 imm h = (refl, refl, tt)
no_csr srai rd rs1 imm h = (refl, refl, tt)
no_csr _ rd rs1 imm h = absurd h

-- The result, as both simulators compute it.
pub record Computes (m : IMnemo) (rd rs1 imm a : ℕ) (s : Machine) : Type 0 where
  pub value : ℕ
  pub in_pipeline : i_value m a (Insts.sign_extend 12 imm) ≡ some (ok value)
  pub in_isa : Registers.read s.regs rs1 ≡ ok a → i_exec m rd rs1 imm s ≡ write_next s rd value

small : (imm : ℕ) → imm < 32 → (Insts.sign_extend 12 imm ≡ imm) × (ltb imm 32 ≡ true)
small imm h = (ground arith, ground arith)

pub computes :
    (m : IMnemo) (rd rs1 imm a : ℕ) (s : Machine)
    → IsArithmetic m
    → InRange m imm
    → Computes m rd rs1 imm a s
unfolding i_value i_exec
computes addi rd rs1 imm a s h r = record { value = _; in_pipeline = refl; in_isa = λ e. rw e refl }
computes slti rd rs1 imm a s h r = record { value = _; in_pipeline = refl; in_isa = λ e. rw e refl }
computes sltiu rd rs1 imm a s h r = record {
  value = _;
  in_pipeline = refl;
  in_isa = λ e. rw e refl;
}
computes xori rd rs1 imm a s h r = record { value = _; in_pipeline = refl; in_isa = λ e. rw e refl }
computes ori rd rs1 imm a s h r = record { value = _; in_pipeline = refl; in_isa = λ e. rw e refl }
computes andi rd rs1 imm a s h r = record { value = _; in_pipeline = refl; in_isa = λ e. rw e refl }
computes slli rd rs1 imm a s h r =
    let (e1, e2) = small imm r in
    record {
      value = u32 (a <<< imm);
      in_pipeline = rw (e1, e2) refl;
      in_isa = λ e. rw (e, e2) refl;
    }
computes srli rd rs1 imm a s h r =
    let (e1, e2) = small imm r in
    record { value = a >>> imm; in_pipeline = rw (e1, e2) refl; in_isa = λ e. rw (e, e2) refl }
computes srai rd rs1 imm a s h r =
    let (e1, e2) = small imm r in
    record { value = sar 32 a imm; in_pipeline = rw (e1, e2) refl; in_isa = λ e. rw (e, e2) refl }
computes _ rd rs1 imm a s h r = absurd h

pub in_range : (m : IMnemo) (imm : ℕ) → InRange m imm → imm < 2 ^ 12
in_range slli imm r = omega arith
in_range srli imm r = omega arith
in_range srai imm r = omega arith
in_range _ imm r = r

rd_eq :
    (m : IMnemo) (rd rs1 imm word : ℕ)
    → get_rd (i_instruction m rd rs1 imm word) ≡ ok rd
    → rd_of (i_instruction m rd rs1 imm word) ≡ rd
unfolding get_rd
rd_eq m rd rs1 imm word e = ground (arith, e)

pub exec_value :
    (m : IMnemo) (rd rs1 imm word v : ℕ) (s : Rip)
    → i_value m s.ps.de_rs1_val s.ps.de_imm_val ≡ some (ok v)
    → exec (i_instruction m rd rs1 imm word) s ≡ ok (Exec.latch v 0 s, none)
unfolding exec after_value
exec_value m rd rs1 imm word v s e = ap (λ o. after_value o m (i_instruction m rd rs1 imm word) s) e

-- An I-type instruction that computes from rs1 and the immediate alone, whose word carries its
-- fields (with rs1 below 32, the immediate of 12 bits, a shift amount below 32), passes decode,
-- execute, memory access and writeback without a fault, with bubbles in EX and MA, and leaves in
-- every register but x0 the value that IInstruction::exec of the instruction-level simulator
-- leaves, which succeeds too.
pub single_i :
    (m : IMnemo) (rd rs1 imm word : ℕ) (s : Rip)
    → IsArithmetic m
    → InRange m imm
    → Reads (i_instruction m rd rs1 imm word) (i_body m rd rs1 imm)
    → rs1 < 32
    → s.ps.insts ex_stage ≡ none
    → s.ps.insts ma_stage ≡ none
    → Agree (i_instruction m rd rs1 imm word) s
unfolding decode Isa.exec write_next Registers.read Registers.write
single_i m rd rs1 imm word s h range reads h1 no_ex no_ma =
    let (g, g1, gi) = reads in
    let i = i_instruction m rd rs1 imm word in
    let (n1, n2, alu) = no_csr m rd rs1 imm h in
    let a = s.regs rs1 in
    let c = computes m rd rs1 imm a (machine_of s) h range in
    let x = sign_extend_12 imm (in_range m imm range) in
    let decoded : Rip = record s {
      ps = record (s.ps) { de_rs1_val = a; de_imm_val = Insts.sign_extend 12 imm };
    } in
    let e1 = operand_bubbles s rs1 no_ex no_ma h1 in
    let ran = exec_value m rd rs1 imm word c.value decoded c.in_pipeline in
    let executed = Exec.latch c.value 0 decoded in
    let p = passed i executed alu in
    let w = wrote i p.after in
    let d = rd_eq m rd rs1 imm word g in
    let t1 : ltb rs1 32 ≡ true = ground arith in
    let t3 : ltb rd 32 ≡ true = ground (arith, rd_of-lt i) in
    let regs : Registers = if rd == 0 then s.regs else update s.regs rd c.value in
    record {
      after = w.after;
      machine = record (machine_of s) { regs = regs; pc = u64 (s.pc + 4) };
      returns = rw (n2, g1, e1, n1, gi, x, ran, p.returns) w.returns;
      executes = c.in_isa (rw t1 refl) ∙ rw t3 refl;
      regs = λ r ne. w.regs r ne ∙ rw (p.ma_rd, p.regs, d) (ground arith);
    }
