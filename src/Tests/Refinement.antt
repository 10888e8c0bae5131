-- ===== src/Tests/Refinement.antt =====
-- Single instructions in the pipeline against the instruction-level simulator.
use rip_sim.Base.{◌≡◌, refl, arith, ok, some, none, inl, [], ◌∷◌, ◌>>=◌}
use rip_sim.Insts
use rip_sim.Insts.{Instruction, lui, jal, jalr, csrrs, sw, lw, beq, u_body, j_body, s_body, i_body}
use rip_sim.Encoding.Reads.{Reads}
use rip_sim.Predictor.OneBit
use rip_sim.Predictor.Dispatch
use rip_sim.Predictor.Dispatch.{BranchPredictor, one_bit}
use rip_sim.Rip.State.{Rip}
use rip_sim.Rip.Single.{Agree, machine_of}
use rip_sim.Rip.SingleImmediate.{i_instruction}
use rip_sim.Rip.SingleStore.{Stores, s_instruction, single_s}
use rip_sim.Rip.SingleLoad.{Loads, single_load}
use rip_sim.Rip.SingleUpper.{u_instruction, single_u}
use rip_sim.Rip.SingleJump.{Jumps, j_instruction, single_j}
use rip_sim.Rip.Branch.{Resolves, b_instruction, branch-Resolves}
use rip_sim.Rip.Start.{init-init}
use rip_sim.Rip.SingleIndirect.{JumpsTo, single_jalr}
use rip_sim.Rip.SingleCsr.{AgreeOnCsrs, single_csr}
use rip_sim.Rip.Hazard.{Follows, load-Follows}
use rip_sim.Rip.Interactive.{run_interactively}
use rip_sim.Rip.Transparent.{left, left-run_interactively}
use rip_sim.Pipe.Json.{print_json, stage_name}
use rip_sim.Pipe.Reported.{Reported, print_json-Reported}
use rip_sim.Text.Chars.{find}
use rip_sim.Rip.Cycle
use rip_sim.Rip.Cycle.{run, run_loop, proceed_n_stage, round, advance}
use rip_sim.Simulator
use rip_sim.Base.{update}
use rip_sim.Tests.Pipeline.{rip_with, pipe_with}

-- The machine alone, with x5 at the base of the DRAM and an instruction at 0x1000 in EX.
abbrev based : Rip
based = record (rip_with (record (pipe_with none none) { pcs = λ _. 0x1000 })) {
  regs = update (λ _. 0) 5 0x1000;
}

-- `sw x6, 8(x5)`
abbrev store_word : Instruction
store_word = s_instruction sw 5 6 8 0x0062a423

store_word-Reads : Reads store_word (s_body sw 5 6 8)
unfolding Insts.get_rs1 Insts.get_rs2 Insts.get_s_imm
store_word-Reads = (refl, refl, refl)

single_s_example : Stores store_word based
single_s_example =
    single_s sw 5 6 8 0x0062a423 based store_word-Reads (omega arith) (omega arith) (omega arith)
      refl refl refl (omega arith) (omega arith)

-- `lw x6, 8(x5)`
abbrev load_word : Instruction
load_word = i_instruction lw 6 5 8 0x0082a303

load_word-Reads : Reads load_word (i_body lw 6 5 8)
unfolding Insts.get_rd Insts.get_rs1 Insts.get_i_imm
load_word-Reads = (refl, refl, refl)

single_load_example : Loads load_word based
single_load_example =
    single_load lw 6 5 8 0x0082a303 based tt load_word-Reads (omega arith) (omega arith) refl refl
      refl refl (omega arith) (omega arith)

-- `lui x7, 0x80000`
abbrev load_upper : Instruction
load_upper = u_instruction lui 7 0x80000 0x800003b7

load_upper-Reads : Reads load_upper (u_body lui 7 0x80000)
unfolding Insts.get_rd Insts.get_u_imm
load_upper-Reads = (refl, refl)

single_u_example : Agree load_upper based
single_u_example = single_u lui 7 0x80000 0x800003b7 based load_upper-Reads (omega arith) refl

-- `jal x1, 8`
abbrev jump : Instruction
jump = j_instruction jal 1 8 0x008000ef

jump-Reads : Reads jump (j_body jal 1 8)
unfolding Insts.get_rd Insts.get_j_imm
jump-Reads = (refl, refl)

single_j_example : Jumps jump based
single_j_example =
    single_j jal 1 8 0x008000ef based jump-Reads (omega arith) (inl (omega arith)) refl

-- `beq x6, x7, 8` with a predictor that has not predicted it.
abbrev predictor : BranchPredictor
predictor = Dispatch.init (one_bit OneBit.init_one_bit)

abbrev branching : Rip
branching = record based {
  bp = some predictor;
  ps = record (based.ps) { de_rs1_val = 0; de_rs2_val = 0; de_imm_val = 8 };
}

branch-Resolves_example : Resolves (b_instruction beq 6 7 8 0x00730463) branching predictor
branch-Resolves_example =
    branch-Resolves beq 6 7 8 0x00730463 branching predictor refl (omega arith) (omega arith) refl
      refl refl

init-init_example :
    (do s ← Cycle.init (0x73 ∷ []) (some predictor) 64 none 0x1000 none; ok (machine_of s))
    ≡ (do s ← Simulator.init (0x73 ∷ []) 64 0x1000 none; ok s.machine_state)
init-init_example = init-init (0x73 ∷ []) (some predictor) 64 none 0x1000 none

-- `jalr x1, 8(x5)`
abbrev jump_back : Instruction
jump_back = i_instruction jalr 1 5 8 0x008280e7

jump_back-Reads : Reads jump_back (i_body jalr 1 5 8)
unfolding Insts.get_rd Insts.get_rs1 Insts.get_i_imm
jump_back-Reads = (refl, refl, refl)

single_jalr_example : JumpsTo jump_back 0x1008 based
single_jalr_example =
    single_jalr 1 5 8 0x008280e7 based jump_back-Reads (omega arith) (omega arith) refl refl refl

-- The load of x6 in EX, and the store of x6 behind it.
abbrev filled : Rip
filled = record based {
  ps = record (based.ps) {
    insts = update (update (λ _. none) 2 (some load_word)) 1 (some store_word);
  };
}

load-Follows_example : Follows load_word store_word filled
load-Follows_example = load-Follows lw 6 5 8 0x0082a303 store_word filled tt refl refl (λ k. refl)

left-run_interactively_example :
    left (run_interactively 9 none (some 0x1008) filled (record { cin = []; cout = [] }))
    ≡ run 9 none (some 0x1008) filled
left-run_interactively_example =
    left-run_interactively 9 none (some 0x1008) filled (record { cin = []; cout = [] })

print_json-Reported_example :
    Reported filled.ps 2 (find (print_json filled.ps) (stage_name 2)) (some load_word)
print_json-Reported_example = print_json-Reported filled.ps 2 (omega arith)

-- `csrrs x5, 0x340, x6`, where x6 is 60.
abbrev set_bits : Instruction
set_bits = i_instruction csrrs 5 6 0x340 0x340322f3

set_bits-Reads : Reads set_bits (i_body csrrs 5 6 0x340)
unfolding Insts.get_rd Insts.get_rs1 Insts.get_i_imm
set_bits-Reads = (refl, refl, refl)

abbrev idle : Rip
idle = rip_with (pipe_with none none)

single_csr_example : AgreeOnCsrs set_bits idle
single_csr_example =
    single_csr csrrs 5 6 0x340 0x340322f3 idle tt set_bits-Reads (omega arith) (omega arith) refl
      refl
