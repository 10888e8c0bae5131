-- ===== src/Pipe.antt =====
-- include/RIPSimulator/PipelineStates.h: the latches of the pipeline and how they move.
pub mod Shift
pub mod Json
pub mod Reported
use rip_sim.Base.{
  ℕ, zero, suc, ◌<◌, Bool, true, false, if◌then◌else◌, Option, none, some, update, ◌&&◌,
}
use rip_sim.Insts.{Instruction}

abbrev pub if_stage : ℕ
if_stage = 0

abbrev pub de_stage : ℕ
de_stage = 1

abbrev pub ex_stage : ℕ
ex_stage = 2

abbrev pub ma_stage : ℕ
ma_stage = 3

abbrev pub wb_stage : ℕ
wb_stage = 4

-- The arrays are indexed by the stages; a null instruction is a bubble.
pub record PipelineStates : Type 0 where
  pub de_rs1_val : ℕ
  pub de_rs2_val : ℕ
  pub de_csr_val : ℕ
  pub de_imm_val : ℕ
  pub ex_rd_val : ℕ
  pub ex_rs2_val : ℕ
  pub ex_imm_val : ℕ
  pub ex_csr_val : ℕ
  pub ma_rd_val : ℕ
  pub ma_imm_val : ℕ
  pub ma_csr_val : ℕ
  pub wb_imm_val : ℕ
  pub branch_pc : Option ℕ
  pub insts : ℕ → Option Instruction
  pub pcs : ℕ → ℕ
  pub stalled_stages : ℕ → Bool
  pub invalid_stages : ℕ → Bool

-- The source does not initialise `DERs1Val` and `PCs`; they are 0 here.
abbrev pub init : PipelineStates
init = record {
  de_rs1_val = 0;
  de_rs2_val = 0;
  de_csr_val = 0;
  de_imm_val = 0;
  ex_rd_val = 0;
  ex_rs2_val = 0;
  ex_imm_val = 0;
  ex_csr_val = 0;
  ma_rd_val = 0;
  ma_imm_val = 0;
  ma_csr_val = 0;
  wb_imm_val = 0;
  branch_pc = none;
  insts = λ _. none;
  pcs = λ _. 0;
  stalled_stages = λ _. false;
  invalid_stages = λ _. false;
}

abbrev pub take_branch_pc : PipelineStates → Option ℕ × PipelineStates
take_branch_pc ps = (ps.branch_pc, record ps { branch_pc = none })

abbrev pub set_branch_pc : ℕ → PipelineStates → PipelineStates
set_branch_pc v ps = record ps { branch_pc = some v }

abbrev pub set_stall : ℕ → PipelineStates → PipelineStates
set_stall s ps = record ps { stalled_stages = update ps.stalled_stages s true }

-- The loops run over all five stages, downwards or upwards; these are the stages below `n`.
clear_below : ℕ → (ℕ → Bool) → ℕ → Bool
clear_below zero f = f
clear_below (suc n) f = clear_below n (update f n false)

unfoldable pub clear_stall : PipelineStates → PipelineStates
unfolding clear_below
clear_stall ps = record ps { stalled_stages = clear_below 5 ps.stalled_stages }

abbrev pub set_invalid : ℕ → PipelineStates → PipelineStates
set_invalid s ps = record ps { invalid_stages = update ps.invalid_stages s true }

-- The loop of `proceed` at stage `n`: it stops at the first stage that is stalled. `std::move`
-- leaves a null pointer behind.
shift_insts :
    ℕ → (ℕ → Bool) → Option Instruction → (ℕ → Option Instruction) → ℕ → Option Instruction
shift_insts zero stalled inst insts = update insts if_stage inst
shift_insts (suc n) stalled inst insts =
    let moved = shift_insts n stalled inst (update (update insts (suc n) (insts n)) n none) in
    if stalled n then insts else moved

unfoldable pub proceed : Option Instruction → PipelineStates → PipelineStates
unfolding shift_insts
proceed inst ps = record ps { insts = shift_insts wb_stage ps.stalled_stages inst ps.insts }

shift_pcs : ℕ → (ℕ → Bool) → ℕ → (ℕ → ℕ) → ℕ → ℕ
shift_pcs zero stalled pc pcs = update pcs if_stage pc
shift_pcs (suc n) stalled pc pcs =
    let moved = shift_pcs n stalled pc (update pcs (suc n) (pcs n)) in
    if stalled n then pcs else moved

unfoldable pub proceed_pc : ℕ → PipelineStates → PipelineStates
unfolding shift_pcs
proceed_pc pc ps = record ps { pcs = shift_pcs wb_stage ps.stalled_stages pc ps.pcs }

-- No stage below `n` holds an instruction.
empty_below : ℕ → (ℕ → Option Instruction) → Bool
empty_below zero insts = true
empty_below (suc n) insts = elim (insts n) [ some i ↦ false | none ↦ empty_below n insts ]

unfoldable pub is_empty : PipelineStates → Bool
unfolding empty_below
is_empty ps = empty_below 5 ps.insts

bubbles_below : ℕ → (ℕ → Bool) → (ℕ → Option Instruction) → ℕ → Option Instruction
bubbles_below zero invalid insts = insts
bubbles_below (suc n) invalid insts =
    bubbles_below n invalid (if invalid n then update insts n none else insts)

-- The flags of the stages that are filled are cleared; the others are clear.
unfoldable pub fill_bubble : PipelineStates → PipelineStates
unfolding bubbles_below clear_below
fill_bubble ps = record ps {
  insts = bubbles_below 5 ps.invalid_stages ps.insts;
  invalid_stages = clear_below 5 ps.invalid_stages;
}
