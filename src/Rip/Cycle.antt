-- ===== src/Rip/Cycle.antt =====
-- `RIPSimulator::proceedNStage` and `run`: the cycle that moves the pipeline on.
use rip_sim.Base.{
  ℕ, zero, suc, ◌+◌, ◌-◌, ◌^◌, u64, add32, ◌==◌, ◌||◌, Bool, true, false, ◌>>=◌, Result, ok, Option,
  none, some, List, [], ◌∷◌,
}
use rip_sim.Memory
use rip_sim.Memory.{Memory, read_word, write_word}
use rip_sim.Registers
use rip_sim.Csr
use rip_sim.Csr.{machine}
use rip_sim.Exceptions.{Exception}
use rip_sim.Insts.{Instruction}
use rip_sim.Decoder
use rip_sim.Pipe
use rip_sim.Pipe.{
  PipelineStates, if_stage, de_stage, ex_stage, ma_stage, wb_stage, proceed, proceed_pc,
  clear_stall, is_empty, fill_bubble, take_branch_pc,
}
use rip_sim.Predictor.Dispatch.{BranchPredictor, take_branch_pred_pc}
use rip_sim.Stats.{Statistics, count_inst}
use rip_sim.Rip.State.{Rip}
use rip_sim.Rip.WriteBack.{writeback}
use rip_sim.Rip.MemoryAccess.{memoryaccess}
use rip_sim.Rip.Exec.{exec}
use rip_sim.Rip.Decode.{decode}
use rip_sim.Rip.Trap.{handle_exception}

-- How a round of the loop ends: `running` goes on, `drained` is the `break` at an empty pipeline,
-- `stopped` is `return true`.
pub data Round : Type 0 where
  running drained stopped : Round

-- The fetch, and the move of all stages.
unfoldable pub advance : Rip → Result Rip
advance s = elim (s.ps.stalled_stages if_stage) [
  | true ↦ ok (record s { ps = clear_stall (proceed none (proceed_pc (2 ^ 64 - 1) s.ps)) })
  | false ↦ (do
    w ← read_word s.mem s.pc
    let inst = Decoder.decode w
    ok (record s {
      ps = proceed inst (proceed_pc s.pc s.ps);
      pc = elim inst [ some i ↦ u64 (s.pc + 4) | none ↦ s.pc ];
    }))
]

-- A stage runs if it holds an instruction.
abbrev pub run_stage : (Instruction → Rip → Result Rip) → ℕ → Rip → Result Rip
run_stage f stage s = elim (s.ps.insts stage) [ none ↦ ok s | some i ↦ f i s ]

abbrev pub run_exec : Rip → Result (Rip × Option Exception)
run_exec s = elim (s.ps.insts ex_stage) [ none ↦ ok (s, none) | some i ↦ exec i s ]

-- Decode is left out if EX has stalled it. `fetch` does nothing.
abbrev pub run_decode : Rip → Result Rip
run_decode s = elim (s.ps.stalled_stages de_stage) [
  | true ↦ ok s
  | false ↦ run_stage decode de_stage s
]

-- The stages of one cycle, from the last to the first.
unfoldable pub work : Rip → Result (Rip × Option Exception)
work s = do
  s ← run_stage writeback wb_stage s
  s ← run_stage memoryaccess ma_stage s
  (s, e) ← run_exec s
  s ← run_decode s
  ok (s, e)

-- The next PC: a branch of EX comes before a prediction of DE.
take_predicted : Option BranchPredictor → Option ℕ × Option BranchPredictor
take_predicted none = (none, none)
take_predicted (some bp) = let (pc, bp') = take_branch_pred_pc bp in (pc, some bp')

choose_pc : Option ℕ → Option ℕ → ℕ → ℕ
choose_pc (some target) predicted pc = target
choose_pc none (some predicted) pc = predicted
choose_pc none none pc = pc

unfoldable pub redirect : Rip → Rip
unfolding take_predicted choose_pc
redirect s =
    let (predicted, bp) = take_predicted s.bp in
    let (target, ps) = take_branch_pc s.ps in
    record s { bp = bp; ps = ps; pc = choose_pc target predicted s.pc }

-- The statistics of the instruction in EX.
unfoldable pub count : Option Instruction → Option Statistics → Option Statistics
count (some i) (some st) = some (count_inst i.body st)
count _ st = st

-- The end of a cycle.
unfoldable pub finish_cycle : Rip → Result Rip
unfolding count redirect
finish_cycle s = do
  let s' = redirect s
  let ps = fill_bubble s'.ps
  c ← Csr.inc_cycle s'.csrs
  ok (record s' {
    ps = ps;
    num_stages = add32 s'.num_stages 1;
    csrs = c;
    stats = count (ps.insts ex_stage) s'.stats;
  })

-- `Except && !handleException(*Except)`
handle : Option Exception → Rip → Result (Bool × Rip)
handle none s = ok (true, s)
handle (some e) s = handle_exception e s

-- The stages of a round, and its end.
cycle : Rip → Result (Round × Rip)
unfolding work handle finish_cycle
cycle s = do
  (s, e) ← work s
  (go_on, s) ← handle e s
  elim go_on [ false ↦ ok (stopped, s) | true ↦ (do s ← finish_cycle s; ok (running, s)) ]

-- What follows the fetch in a round.
unfoldable pub after_advance : Rip → Result (Round × Rip)
unfolding cycle
after_advance s = elim (is_empty s.ps) [ true ↦ ok (drained, s) | false ↦ cycle s ]

unfoldable pub round : Rip → Result (Round × Rip)
unfolding advance after_advance
round s = do s ← advance s; after_advance s

-- `proceedNStage(N)`
unfoldable pub proceed_n_stage : ℕ → Rip → Result (Bool × Rip)
proceed_n_stage zero s = ok (is_empty s.ps, s)
proceed_n_stage (suc n) s = do
  (r, s) ← round s
  elim r [
    | stopped ↦ ok (true, s)
    | drained ↦ ok (is_empty s.ps, s)
    | running ↦ proceed_n_stage n s
  ]

abbrev pub reached : Option ℕ → ℕ → Bool
reached none pc = false
reached (some end) pc = pc == end

-- The loop of `run`, on fuel; `none` means that the fuel ran out.
unfoldable pub run_loop : ℕ → Option ℕ → Rip → Result (Option Rip)
run_loop zero end_address s = ok none
run_loop (suc fuel) end_address s = do
  (done, s) ← proceed_n_stage 1 s
  elim (done || reached end_address s.pc) [
    | true ↦ ok (some s)
    | false ↦ run_loop fuel end_address s
  ]

unfoldable pub run : ℕ → Option ℕ → Option ℕ → Rip → Result (Option Rip)
unfolding run_loop
run fuel none end_address s = run_loop fuel end_address s
run fuel (some start) end_address s = run_loop fuel end_address (record s { pc = start })

-- The constructor loads the words of the input from the base address on; bytes after the last
-- whole word are dropped.
unfoldable pub load_binary : List ℕ → ℕ → Memory → Result Memory
load_binary [] p m = ok m
load_binary (w ∷ ws) p m = do m ← write_word m p w; load_binary ws (u64 (p + 4)) m

unfoldable pub init :
    List ℕ → Option BranchPredictor → ℕ → Option Statistics → ℕ → Option ℕ → Result Rip
unfolding load_binary
init words bp dram_size stats dram_base spi = do
  m ← load_binary words dram_base (Memory.init dram_size dram_base)
  ok (record {
    mem = m;
    pc = dram_base;
    csrs = Csr.init;
    mode = machine;
    num_stages = 0;
    ps = Pipe.init;
    regs = Registers.init dram_size dram_base spi;
    bp = bp;
    stats = stats;
    console = [];
  })
