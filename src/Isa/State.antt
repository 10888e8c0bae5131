-- ===== src/Isa/State.antt =====
-- The arguments of `exec` in lib/Instructions.cpp: the machine that an instruction changes.
use rip_sim.Base.{ℕ, ◌+◌, u64, Option, none, List, Result, ok, ◌>>=◌}
use rip_sim.Memory.{Memory}
use rip_sim.Registers.{Registers}
use rip_sim.Registers
use rip_sim.Csr.{Csrs, ModeKind}
use rip_sim.Exceptions.{Exception}

-- `console` holds the characters that stores to the MMIO address print, the last one first.
pub record Machine : Type 0 where
  pub pc : ℕ
  pub regs : Registers
  pub mem : Memory
  pub csrs : Csrs
  pub mode : ModeKind
  pub console : List ℕ

abbrev pub Out : Type 0
Out = Result (Machine × Option Exception)

-- `GPRegs.write(Rd, val); PC += 4;`
unfoldable pub write_next : Machine → ℕ → ℕ → Out
write_next s rd val = do
  r ← Registers.write s.regs rd val
  ok (record s { regs = r; pc = u64 (s.pc + 4) }, none)
