-- ===== src/Tests/Pipeline.antt =====
-- Runs of the pipelined simulator and of its branch predictors.
use rip_sim.Base.{
  ◌^◌, ◌<◌, ◌≤◌, ◌≡◌, ◌⊎◌, ◌↔◌, refl, arith, ok, true, false, some, none, Option, update, [], pos,
  ◌>>=◌, ◌-◌,
}
use rip_sim.Insts
use rip_sim.Insts.{addi, Instruction, new_i, new_r, addi, add, sub, ecall, r_body, i_body}
use rip_sim.Encoding.Reads.{Reads}
use rip_sim.Memory
use rip_sim.Registers
use rip_sim.Csr
use rip_sim.Csr.{machine, mtvec}
use rip_sim.Exceptions.{environment_call_from_m_mode}
use rip_sim.Pipe
use rip_sim.Pipe.{
  PipelineStates, if_stage, de_stage, ex_stage, ma_stage, wb_stage, proceed, set_stall, clear_stall,
  is_empty, fill_bubble, set_invalid,
}
use rip_sim.Predictor.Perceptron
use rip_sim.Predictor.Weights.{IsBounded, learn-IsBounded}
use rip_sim.Rip.State.{Rip, sign_extend, writes_csr}
use rip_sim.Rip.Decode.{operand}
use rip_sim.Rip.Trap.{handle_exception}
use rip_sim.Rip.SingleImmediate.{i_instruction, single_i}
use rip_sim.Rip.Extension.{sign_extend_jal}
use rip_sim.Rip.Forwarding.{retire_ma, retire_ex, operand_lem}
use rip_sim.Rip.Single.{Agree, r_instruction, single_r}
use rip_sim.Rip.Traps.{Trapped, handle_exception-Trapped}

-- `add x5, x6, x7` and `ecall`
abbrev add_5 : Instruction
add_5 = r_instruction add 5 6 7 0x007302b3

abbrev call : Instruction
call = record { body = i_body ecall 0 0 0; val = 0x73 }

-- The pipeline with given instructions in EX and MA, and results of both.
abbrev pub pipe_with : Option Instruction → Option Instruction → PipelineStates
pipe_with x m = record (Pipe.init) {
  ex_rd_val = 11;
  ma_rd_val = 22;
  insts = update (update (λ _. none) ex_stage x) ma_stage m;
}

abbrev pub rip_with : PipelineStates → Rip
rip_with ps = record {
  mem = Memory.init 64 0x1000;
  pc = 0x1000;
  csrs = update (update Csr.init Csr.mstatus 0x8) mtvec 0x1020;
  mode = machine;
  num_stages = 0;
  ps = ps;
  regs = update (update (λ _. 0) 6 60) 7 70;
  bp = none;
  stats = none;
  console = [];
}

abbrev waiting : Rip
waiting = rip_with (pipe_with (some add_5) (some add_5))

operand_lem_example :
    operand waiting 5
    ≡ (do s ← retire_ma (some add_5) waiting; s ← retire_ex (some add_5) s; Registers.read s.regs 5)
operand_lem_example = operand_lem waiting 5 (omega arith) (omega arith) tt

abbrev alone : Rip
alone = rip_with (pipe_with none none)

add_5-Reads : Reads add_5 (r_body add 5 6 7)
unfolding Insts.get_rd Insts.get_rs1 Insts.get_rs2
add_5-Reads = (refl, refl, refl)

single_r_example : Agree add_5 alone
single_r_example =
    single_r add 5 6 7 0x007302b3 alone add_5-Reads (omega arith) (omega arith) refl refl

abbrev trapping : Rip
trapping = rip_with (pipe_with (some call) none)

not_csr : writes_csr (some call) mtvec ≡ ok false
unfolding writes_csr
not_csr = refl

no_csr : writes_csr none mtvec ≡ ok false
unfolding writes_csr
no_csr = refl

handle_exception-Trapped_example :
    Trapped environment_call_from_m_mode trapping
      (handle_exception environment_call_from_m_mode trapping)
handle_exception-Trapped_example =
    handle_exception-Trapped environment_call_from_m_mode call trapping tt refl refl not_csr no_csr
      (omega arith)

-- `addi x5, x6, -1`
abbrev addi_5 : Instruction
addi_5 = i_instruction addi 5 6 0xfff 0xfff30293

addi_5-Reads : Reads addi_5 (i_body addi 5 6 0xfff)
unfolding Insts.get_rd Insts.get_rs1 Insts.get_i_imm
addi_5-Reads = (refl, refl, refl)

single_i_example : Agree addi_5 alone
single_i_example =
    single_i addi 5 6 0xfff 0xfff30293 alone tt (omega arith) addi_5-Reads (omega arith) refl refl

sign_extend_jal_example :
    (sign_extend (sign_extend 0x80000 20) 20 ≡ Insts.sign_extend 21 0x80000)
    ↔ ((0x80000 < 2 ^ 19) ⊎ (2 ^ 21 - 2 ^ 19 ≤ 0x80000))
sign_extend_jal_example = sign_extend_jal 0x80000 (omega arith)

learn-IsBounded_example :
    IsBounded (Perceptron.learn true 0x1000 (Perceptron.init_perceptron (pos 0)))
    × ((Perceptron.learn true 0x1000 (Perceptron.init_perceptron (pos 0))).branch_history < 2 ^ 10)
learn-IsBounded_example =
    learn-IsBounded true 0x1000 (Perceptron.init_perceptron (pos 0))
      (λ i j lo hi. (omega arith, omega arith))
