-- ===== src/Rip/Flow/Stages.antt =====
-- The stages of lib/RIPSimulator/RIPSimulator.cpp at an instruction that computes a register.
use rip_sim.Base.{◌≡◌, ◌≢◌, refl, arith, ok, Option, none, some, update, true, false, ltb, ◌==◌}
use rip_sim.Insts.{Instruction, Body, r_body, i_body, u_body, has_rd, get_rd}
use rip_sim.Registers.{write as reg_write}
use rip_sim.Encoding.Reads.{Reads}
use rip_sim.Pipe.{ma_stage, wb_stage}
use rip_sim.Rip.State.{Rip, is_csr}
use rip_sim.Rip.Decode.{is_csr_immediate}
use rip_sim.Rip.WriteBack
use rip_sim.Rip.WriteBack.{set_wb_imm_val}
use rip_sim.Rip.MemoryAccess
use rip_sim.Rip.MemoryAccess.{latch}
use rip_sim.Rip.Cycle.{run_stage}
use rip_sim.Rip.Passing.{rd_of, rd_of-lt, memoryaccess_lem, IsAlu, no_writeback}
use rip_sim.Rip.SingleImmediate.{no_csr}
use rip_sim.Rip.Flow.Moves.{
  View, view, IsPlain, Plain, Holds, put, set, result, or_zero, imm_of, forwarded, rs1_of, rs2_of,
  latch_rs1, latch_rs2,
}
use rip_sim.Rip.Flow.Moves

-- A stage succeeds, changes the view as said, and none of the flags and branch latches.
pub record Stage (Returns : Rip → Type 0) (s : Rip) (v : View) : Type 0 where
  pub after : Rip
  pub returns : Returns after
  pub sees : view after ≡ v
  pub stalled : after.ps.stalled_stages ≡ s.ps.stalled_stages
  pub invalid : after.ps.invalid_stages ≡ s.ps.invalid_stages
  pub branch_pc : after.ps.branch_pc ≡ s.ps.branch_pc
  pub bp : after.bp ≡ s.bp

-- What such an instruction is and is not.
pub record Kind (b : Body) : Type 0 where
  pub rd : has_rd b ≡ true
  pub csr : is_csr b ≡ false
  pub immediate : is_csr_immediate b ≡ false
  pub alu : IsAlu b

pub plain_kind : (b : Body) → IsPlain b → Kind b
plain_kind (r_body m rd rs1 rs2) h = record { rd = refl; csr = refl; immediate = refl; alu = tt }
plain_kind (u_body m rd imm) h = record { rd = refl; csr = refl; immediate = refl; alu = tt }
plain_kind (i_body m rd rs1 imm) (ne, lt, a, r) =
    let (c, i, l) = no_csr m rd rs1 imm a in record { rd = refl; csr = c; immediate = i; alu = l }
plain_kind _ h = absurd h

-- The destination that the word names is not x0.
pub word_rd-ne : (b : Body) (i : Instruction) → IsPlain b → Reads i b → rd_of i ≢ 0
unfolding get_rd
word_rd-ne (r_body m rd rs1 rs2) i h e = let ne = h.0 in ground (arith, e.0)
word_rd-ne (i_body m rd rs1 imm) i h e = let ne = h.0 in ground (arith, e.0)
word_rd-ne (u_body m rd imm) i h e = let ne = h.0 in ground (arith, e.0)
word_rd-ne _ i h e = absurd h

-- WB.
writeback-Plain :
    (i : Instruction) (s : Rip)
    → Plain i
    → WriteBack.writeback i s
      ≡ ok (
          set_wb_imm_val s.ps.ma_rd_val
            (record s { regs = update s.regs (rd_of i) s.ps.ma_rd_val }))
unfolding WriteBack.writeback get_rd reg_write
writeback-Plain i s (p, reads) =
    let k = plain_kind i.body p in
    let ne = word_rd-ne i.body i p reads in
    let lt = rd_of-lt i in
    let t : ltb (rd_of i) 32 ≡ true = ground arith in
    let z : (rd_of i == 0) ≡ false = ground arith in
    rw (no_writeback i.body, k.rd, k.csr, t, z) refl

at_wb :
    (o : Option Instruction) (s : Rip)
    → Holds o
    → Stage
        (λ t. elim o [ none ↦ ok s | some i ↦ WriteBack.writeback i s ] ≡ ok t)
        s
        (record (view s) { regs = put o s.ps.ma_rd_val s.regs })
at_wb none s h = record {
  after = s;
  returns = refl;
  sees = refl;
  stalled = refl;
  invalid = refl;
  branch_pc = refl;
  bp = refl;
}
at_wb (some i) s h = record {
  after =
      set_wb_imm_val s.ps.ma_rd_val (record s { regs = update s.regs (rd_of i) s.ps.ma_rd_val });
  returns = writeback-Plain i s h;
  sees = refl;
  stalled = refl;
  invalid = refl;
  branch_pc = refl;
  bp = refl;
}

pub wb_stage_lem :
    (s : Rip)
    → Holds (s.ps.insts wb_stage)
    → Stage (λ t. run_stage WriteBack.writeback wb_stage s ≡ ok t) s (Moves.writeback (view s))
wb_stage_lem s h = at_wb (s.ps.insts wb_stage) s h

-- MA.
at_ma :
    (o : Option Instruction) (s : Rip)
    → Holds o
    → Stage
        (λ t. elim o [ none ↦ ok s | some i ↦ MemoryAccess.memoryaccess i s ] ≡ ok t)
        s
        (record (view s) { ma_rd = set o s.ps.ex_rd_val s.ps.ma_rd_val })
at_ma none s h = record {
  after = s;
  returns = refl;
  sees = refl;
  stalled = refl;
  invalid = refl;
  branch_pc = refl;
  bp = refl;
}
at_ma (some i) s (p, reads) =
    let (console, e) = memoryaccess_lem i s (plain_kind i.body p).alu in
    record {
      after = latch s.ps.ex_rd_val (record s { console = console });
      returns = e;
      sees = refl;
      stalled = refl;
      invalid = refl;
      branch_pc = refl;
      bp = refl;
    }

pub ma_stage_lem :
    (s : Rip)
    → Holds (s.ps.insts ma_stage)
    → Stage
        (λ t. run_stage MemoryAccess.memoryaccess ma_stage s ≡ ok t)
        s
        (Moves.memoryaccess (view s))
ma_stage_lem s h = at_ma (s.ps.insts ma_stage) s h
