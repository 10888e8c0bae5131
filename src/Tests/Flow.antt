-- ===== src/Tests/Flow.antt =====
-- Straight programs in the pipeline, at concrete inputs.
use rip_sim.Base.{◌≡◌, refl, arith, ok, some, none, update, List, [], ◌∷◌, ℕ}
use rip_sim.Decoder
use rip_sim.Insts.{Instruction, addi, add, lui}
use rip_sim.Simulator.Loading.{AllWords}
use rip_sim.Predictor.OneBit
use rip_sim.Predictor.Dispatch
use rip_sim.Predictor.Dispatch.{BranchPredictor, one_bit}
use rip_sim.Rip.SingleImmediate.{i_instruction}
use rip_sim.Rip.SingleUpper.{u_instruction}
use rip_sim.Rip.Single.{r_instruction}
use rip_sim.Tests.Pipeline.{rip_with, pipe_with}
use rip_sim.Memory
use rip_sim.Memory.{read_word}
use rip_sim.Insts
use rip_sim.Isa.{Machine}
use rip_sim.Rip.State.{Rip}
use rip_sim.Rip.Single.{machine_of}
use rip_sim.Rip.Flow.Moves.{Plain, view}
use rip_sim.Rip.Flow.Work.{Free}
use rip_sim.Rip.Flow.Retire.{Straight, retired}
use rip_sim.Rip.Flow.Follows.{Follows, round-Follows}
use rip_sim.Rip.Flow.Drain.{AtEnd, Drained, run_loop-Drained}
use rip_sim.Rip.Flow.Programs.{Decodes, SameRun, run-SameRun}

-- `addi x5, x0, 1`, `add x6, x5, x5` and `lui x7, 1`, and a word that is no instruction.
abbrev words : List ℕ
words = 0x00100293 ∷ 0x00528333 ∷ 0x000013b7 ∷ 0 ∷ []

abbrev instructions : List Instruction
instructions =
    i_instruction addi 5 0 1 0x00100293
    ∷ r_instruction add 6 5 5 0x00528333
    ∷ u_instruction lui 7 1 0x000013b7
    ∷ []

words-AllWords : AllWords words
words-AllWords = (omega arith, (omega arith, (omega arith, (omega arith, tt))))

words-Decodes : Decodes words instructions
unfolding Decoder.decode Decoder.dispatch Insts.new_i Insts.new_r Insts.new_u
words-Decodes = (
  refl,
  (omega arith, omega arith, tt, omega arith),
  (refl, (omega arith, omega arith, omega arith), (refl, (omega arith, omega arith), refl)),
)

abbrev predictor : BranchPredictor
predictor = Dispatch.init (one_bit OneBit.init_one_bit)

run-SameRun_example : SameRun words 3 (some predictor) 64 none 0x1000 none
run-SameRun_example =
    run-SameRun words instructions (some predictor) 64 none 0x1000 none words-AllWords words-Decodes
      refl (omega arith) (omega arith)

-- `addi x5, x0, 1` in EX, with its result latched, and `add x6, x5, x5` to be fetched.
abbrev one : Instruction
one = i_instruction addi 5 0 1 0x00100293

abbrev twice : Instruction
twice = r_instruction add 6 5 5 0x00528333

abbrev in_flight : Rip
in_flight = record (rip_with (record (pipe_with (some one) none) { ex_rd_val = 1 })) {
  mem = record (Memory.init 64 0x1000) {
    cells = update (update (update (λ _. 0) 0 0x33) 1 0x83) 2 0x52;
  };
}

one-Plain : Plain one
unfolding Insts.get_rd Insts.get_rs1 Insts.get_i_imm
one-Plain = ((omega arith, omega arith, tt, omega arith), (refl, refl, refl))

twice-Plain : Plain twice
unfolding Insts.get_rd Insts.get_rs1 Insts.get_rs2
twice-Plain = ((omega arith, omega arith, omega arith), (refl, refl, refl))

in_flight-Free : Free in_flight
in_flight-Free = (λ k. refl, λ k. refl, refl, tt)

in_flight-Straight : Straight (view in_flight)
in_flight-Straight = (tt, tt, one-Plain, tt, tt)

abbrev ahead : Machine
ahead = record (machine_of in_flight) { regs = retired (view in_flight) }

word_read : read_word in_flight.mem in_flight.pc ≡ ok 0x00528333
unfolding read_word
word_read = refl

word_decoded : Decoder.decode 0x00528333 ≡ some twice
unfolding Decoder.decode Decoder.dispatch Insts.new_r
word_decoded = refl

round-Follows_example : Follows twice ahead in_flight
round-Follows_example =
    round-Follows twice 0x00528333 ahead in_flight in_flight-Free in_flight-Straight twice-Plain
      word_read word_decoded (refl, refl, refl)

-- The same in front of a memory without instructions.
abbrev ending : Rip
ending = record in_flight { mem = Memory.init 64 0x1000 }

ending-AtEnd : AtEnd ending.mem ending.pc
unfolding read_word Decoder.decode Decoder.dispatch
ending-AtEnd = (0, refl, refl)

run_loop-Drained_example : Drained 4 ending
run_loop-Drained_example =
    run_loop-Drained 4 ending in_flight-Free in_flight-Straight tt ending-AtEnd
