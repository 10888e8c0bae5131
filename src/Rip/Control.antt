-- ===== src/Rip/Control.antt =====
-- The parts of `RIPSimulator::exec` that change the flow: jumps, branches, loads that stall, and
-- the return from a trap.
use rip_sim.Base.{
  ℕ, ◌+◌, bit_and, u64, add32, sext64, sar, ltb, ltb_ℤ, ◌==◌, ◌||◌, not, xor, Bool, true, false,
  if◌then◌else◌, signed32, ◌>>=◌, Result, ok, Option, none, some,
}
use rip_sim.Insts.{
  Instruction, BMnemo, beq, bne, blt, bge, bltu, bgeu, has_rs1, has_rs2, get_rd, get_rs1, get_rs2,
}
use rip_sim.Csr
use rip_sim.Csr.{
  Csrs, ModeKind, user, supervisor, hypervisor, machine, epilogue, mode_of_code, mstatus, mepc,
}
use rip_sim.Exceptions.{Exception, illegal_instruction}
use rip_sim.Pipe.{
  PipelineStates, if_stage, de_stage, ex_stage, ma_stage, set_branch_pc, set_invalid, set_stall,
}
use rip_sim.Predictor.Dispatch.{stats_update, learn}
use rip_sim.Rip.State.{Rip, sign_extend, writes_csr}

-- `PS.setInvalid(DE); PS.setInvalid(IF);`
abbrev pub flush : PipelineStates → PipelineStates
flush ps = set_invalid if_stage (set_invalid de_stage ps)

abbrev jump_to : ℕ → Rip → Rip
jump_to pc s = record s { ps = flush (set_branch_pc pc s.ps) }

unfoldable pub jalr_jump : Rip → Rip
jalr_jump s = jump_to (sext64 (add32 s.ps.de_rs1_val (sign_extend s.ps.de_imm_val 12))) s

unfoldable pub jal_jump : Rip → Rip
jal_jump s = jump_to (u64 (s.ps.pcs ex_stage + sext64 (sign_extend s.ps.de_imm_val 20))) s

-- Whether the instruction in DE reads the register `rd` of a load in EX.
unfoldable pub reads : Instruction → ℕ → Result Bool
reads i rd = do
  first ← elim (has_rs1 i.body) [ true ↦ (do r ← get_rs1 i; ok (rd == r)) | false ↦ ok false ]
  second ← elim (has_rs2 i.body) [ true ↦ (do r ← get_rs2 i; ok (rd == r)) | false ↦ ok false ]
  ok (first || second)

unfoldable pub load_stall : Instruction → Rip → Result Rip
load_stall inst s = elim (s.ps.insts de_stage) [
  | none ↦ ok s
  | some next ↦ (do
    rd ← get_rd inst
    b ← reads next rd
    ok (if b then record s { ps = set_stall if_stage (set_stall de_stage s.ps) } else s))
]

unfoldable pub condition : BMnemo → ℕ → ℕ → Bool
condition beq a b = a == b
condition bne a b = not (a == b)
condition blt a b = ltb_ℤ (signed32 a) (signed32 b)
condition bge a b = not (ltb_ℤ (signed32 a) (signed32 b))
condition bltu a b = ltb a b
condition bgeu a b = not (ltb a b)

-- The counter that a prediction and an outcome belong to.
unfoldable pub count_branch : Bool → Bool → Csrs → Result Csrs
count_branch true true c = Csr.inc_bptp c
count_branch true false c = Csr.inc_bpfp c
count_branch false true c = Csr.inc_bpfn c
count_branch false false c = Csr.inc_bptn c

unfoldable pub branch : BMnemo → Rip → Result Rip
unfolding condition count_branch
branch m s =
    let cond = condition m s.ps.de_rs1_val s.ps.de_rs2_val in
    let pc = s.ps.pcs ex_stage in
    let next_pc = u64 (pc + sext64 s.ps.de_imm_val) in
    elim s.bp [
      | none ↦ ok (if cond then record s { pc = next_pc; ps = flush s.ps } else s)
      | some bp ↦ (do
        let pred = bp.prev_pred
        c ← count_branch pred cond s.csrs
        let target = if cond then next_pc else u64 (pc + 4)
        ok (record s {
          ps = if xor pred cond then flush (set_branch_pc target s.ps) else s.ps;
          csrs = c;
          bp = some (learn cond pc (stats_update cond pred bp));
        }))
    ]

-- A CSR that mret reads: the value that a CSR instruction in MA is about to write comes first.
forwarded_from_ma : ℕ → Rip → Result ℕ
forwarded_from_ma ca s = do
  v ← Csr.read s.csrs ca
  b ← writes_csr (s.ps.insts ma_stage) ca
  ok (if b then s.ps.ma_csr_val else v)

-- The end of mret: MIE is set to MPIE, MPIE to 1 and MPP to 0.
mret_status : ℕ → Rip → Result (Rip × Option Exception)
mret_status v s = do
  c ← Csr.set_mie s.csrs (bit_and (sar 32 v 7) 1 == 1)
  c ← Csr.set_mpie c true
  c ← Csr.set_mpp c user
  ok (record s { csrs = c }, none)

mret_mode : ModeKind → ℕ → Rip → Result (Rip × Option Exception)
unfolding mret_status
mret_mode user v s = do c ← Csr.set_mprev s.csrs false; mret_status v (record s { csrs = c })
mret_mode supervisor v s = do
  c ← Csr.set_mprev s.csrs false
  mret_status v (record s { csrs = c; mode = supervisor })
mret_mode machine v s = mret_status v (record s { mode = machine })
mret_mode _ v s = ok (s, some illegal_instruction)

unfoldable pub mret : Rip → Result (Rip × Option Exception)
unfolding forwarded_from_ma mret_mode
mret s = do
  next_pc ← forwarded_from_ma mepc s
  v ← forwarded_from_ma mstatus s
  mret_mode (mode_of_code (bit_and (sar 32 v 11) 0b11)) v (jump_to (sext64 next_pc) s)
