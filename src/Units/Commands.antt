-- ===== src/Units/Commands.antt =====
-- The shape of the tests of unittests/RIPSimulator/BranchPredictorTest.cpp and ForwardingTest.cpp: a
-- program, and calls of `proceedNStage` and `run` with expectations between them.
use rip_sim.Base.{
  ℕ, ◌==◌, ◌&&◌, not, xor, Bool, true, false, List, [], ◌∷◌, Option, none, some, Result, ok, err,
  assertion, ◌>>=◌,
}
use rip_sim.Registers
use rip_sim.Stats
use rip_sim.Pipe.{de_stage}
use rip_sim.Predictor.Gshare.{Gshare, get_bht_index}
use rip_sim.Predictor.Dispatch
use rip_sim.Predictor.Dispatch.{BranchPredictor, Kind, gshare}
use rip_sim.Rip.State.{Rip}
use rip_sim.Rip.Cycle
use rip_sim.Rip.Cycle.{run, proceed_n_stage}
use rip_sim.Units.Runner.{dram_base, same_registers}

-- The calls, and what is compared with the value: `getBPPred`, `getBranchHistory`, `getBHTIndex` at
-- the address in DE, `getDERs1Val` and its kin, `getPC` and the registers.
pub data Command : Type 0 where
  proceed : ℕ → Command
  run_all : Command
  pred : Bool → Command
  history index de_rs1 de_rs2 de_csr ex_rd pc : ℕ → Command
  registers : List (ℕ × ℕ) → Command

pub record Script : Type 0 where
  pub words : List ℕ
  pub predictor : Option Kind
  pub commands : List Command

-- `getBPPred` without a predictor fails its assert.
bp_pred : Option BranchPredictor → Result Bool
bp_pred none = err assertion
bp_pred (some bp) = ok bp.prev_pred

on_gshare : (Gshare → Bool) → Option BranchPredictor → Bool
on_gshare f none = false
on_gshare f (some bp) = elim bp.kind [ gshare p ↦ f p | _ ↦ false ]

-- What an expectation finds, and the state behind a call.
obey : Command → Rip → Result (Bool × Rip)
unfolding bp_pred on_gshare
obey (proceed n) s = do (b, s') ← proceed_n_stage n s; ok (true, s')
obey run_all s = do
  r ← run 200 none none s
  elim r [ none ↦ ok (false, s) | some s' ↦ ok (true, s') ]
obey (pred e) s = do b ← bp_pred s.bp; ok (not (xor b e), s)
obey (history v) s = ok (on_gshare (λ p. p.branch_history == v) s.bp, s)
obey (index v) s = ok (on_gshare (λ p. get_bht_index (s.ps.pcs de_stage) p == v) s.bp, s)
obey (de_rs1 v) s = ok (s.ps.de_rs1_val == v, s)
obey (de_rs2 v) s = ok (s.ps.de_rs2_val == v, s)
obey (de_csr v) s = ok (s.ps.de_csr_val == v, s)
obey (ex_rd v) s = ok (s.ps.ex_rd_val == v, s)
obey (pc v) s = ok (s.pc == v, s)
obey (registers ps) s = do
  e ← Registers.init_with ps 1024 dram_base none
  ok (same_registers 32 s.regs e, s)

obey_all : List Command → Rip → Result Bool
unfolding obey
obey_all [] s = ok true
obey_all (c ∷ cs) s = do (b, s) ← obey c s; d ← obey_all cs s; ok (b && d)

with_kind : Option Kind → Option BranchPredictor
with_kind none = none
with_kind (some k) = some (Dispatch.init k)

passes : Script → Result Bool
unfolding obey_all with_kind
passes t = do
  s ← Cycle.init t.words (with_kind t.predictor) 1024 (some Stats.init) dram_base none
  obey_all t.commands s

unfoldable pub all_pass : List Script → Result Bool
unfolding passes
all_pass [] = ok true
all_pass (t ∷ ts) = do b ← passes t; c ← all_pass ts; ok (b && c)
