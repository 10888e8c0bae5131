-- ===== src/Tests/Machines.antt =====
-- Runs of the instruction-level simulator.
use rip_sim.Base.{refl, arith, none, update, [], ◌∷◌, List, ℕ}
use rip_sim.Insts.{r_body, add}
use rip_sim.Csr
use rip_sim.Csr.{machine}
use rip_sim.Exceptions.{environment_call_from_m_mode}
use rip_sim.Isa.{Machine, exec}
use rip_sim.Isa.Zero.{KeepsZero, exec-KeepsZero}
use rip_sim.Simulator.Loading.{Starts, init-Starts}
use rip_sim.Simulator.{init, enter_trap}
use rip_sim.Simulator.Traps.{Trapped, enter_trap-Trapped}

-- A machine with an `ebreak` at 0x1000, interrupts enabled and a handler.
abbrev start : Machine
start = record {
  pc = 0x1000;
  regs = update (λ _. 0) 5 42;
  mem = record { cells = update (update (λ _. 0) 0 0x73) 2 0x10; size = 64; base = 0x1000 };
  csrs = update (update Csr.init Csr.mstatus 0x8) Csr.mtvec 0x1020;
  mode = machine;
  console = [];
}

-- `add x0, x5, x5`
exec-KeepsZero_example : KeepsZero (exec (r_body add 0 5 5) start)
exec-KeepsZero_example = exec-KeepsZero (r_body add 0 5 5) start refl

enter_trap-Trapped_example :
    Trapped environment_call_from_m_mode start (enter_trap environment_call_from_m_mode 0x73 start)
enter_trap-Trapped_example =
    enter_trap-Trapped environment_call_from_m_mode 0x73 0 start refl (omega arith) refl

-- `addi x5, x0, 1` and `ebreak`
abbrev program : List ℕ
program = 0x00100293 ∷ 0x00100073 ∷ []

init-Starts_example : Starts program 0x8000 (init program 1024 0x8000 none)
init-Starts_example =
    init-Starts program 1024 0x8000 none (omega arith, (omega arith, tt)) (omega arith)
      (omega arith)
