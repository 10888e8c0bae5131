-- ===== src/Units/Runner.antt =====
-- The shape of the tests of unittests/RIPSimulator and unittests/Simulator: a program, and what the
-- machine holds after `run`.
use rip_sim.Base.{
  ℕ, zero, suc, ◌==◌, ◌&&◌, Bool, true, false, List, [], ◌∷◌, Option, none, some, Result, ok, ◌>>=◌,
}
use rip_sim.Registers
use rip_sim.Registers.{Registers}
use rip_sim.Csr.{Csrs}
use rip_sim.Stats
use rip_sim.Simulator
use rip_sim.Rip.Cycle
use rip_sim.Rip.Cycle.{run}

abbrev pub dram_base : ℕ
dram_base = 0x8000

-- `BYTES`, four at a time, and `EXPECTED`, `EXPECTED_C` and `EXPECTED_PC` where the test has them.
pub record Test : Type 0 where
  pub words : List ℕ
  pub registers : List (ℕ × ℕ)
  pub csrs : List (ℕ × ℕ)
  pub pc : Option ℕ

abbrev pub regs_test : List ℕ → List (ℕ × ℕ) → Test
regs_test ws rs = record { words = ws; registers = rs; csrs = []; pc = none }

abbrev pub pc_test : List ℕ → List (ℕ × ℕ) → ℕ → Test
pc_test ws rs pc = record { words = ws; registers = rs; csrs = []; pc = some pc }

-- The loops over the registers below `n` and over the CSRs.
unfoldable pub same_registers : ℕ → Registers → Registers → Bool
same_registers zero a b = true
same_registers (suc n) a b = a n == b n && same_registers n a b

unfoldable pub same_csrs : List (ℕ × ℕ) → Csrs → Bool
same_csrs [] c = true
same_csrs ((ca, v) ∷ vs) c = c ca == v && same_csrs vs c

abbrev expect_pc : Option ℕ → ℕ → Bool
expect_pc none pc = true
expect_pc (some e) pc = pc == e

unfoldable pub expect : Test → Registers → Csrs → ℕ → Result Bool
unfolding Registers.init_with same_registers same_csrs
expect t r c pc = do
  e ← Registers.init_with t.registers 1024 dram_base none
  ok (same_registers 32 r e && same_csrs t.csrs c && expect_pc t.pc pc)

-- `RIPSimulator RSim(ss); RSim.run();` and the expectations; 200 rounds are enough.
unfoldable pub passes_rip : Test → Result Bool
unfolding Cycle.init run expect
passes_rip t = do
  s ← Cycle.init t.words none 1024 (some Stats.init) dram_base none
  r ← run 200 none none s
  elim r [ none ↦ ok false | some s' ↦ expect t s'.regs s'.csrs s'.pc ]

-- `Simulator Sim(ss); Sim.run();`
unfoldable pub passes_sim : Test → Result Bool
unfolding Simulator.init Simulator.run expect
passes_sim t = do
  s ← Simulator.init t.words 1024 dram_base none
  r ← Simulator.run 200 none s
  elim r [
    | none ↦ ok false
    | some s' ↦ expect t s'.machine_state.regs s'.machine_state.csrs s'.machine_state.pc
  ]

-- Every test of a list passes.
unfoldable pub all_pass : (Test → Result Bool) → List Test → Result Bool
all_pass f [] = ok true
all_pass f (t ∷ ts) = do b ← f t; c ← all_pass f ts; ok (b && c)
