-- ===== src/Simulator.antt =====
-- lib/Simulator/Simulator.cpp: the instruction-level simulator.
pub mod Reached
pub mod TrapRanges
pub mod Ranges
pub mod Input
pub mod Traps
pub mod Fuel
pub mod Loading
use rip_sim.Base.{
  ℕ, zero, suc, ◌+◌, bit_and, bit_or, u32, u64, sar, sext64, to_int, ◌==◌, ◌<<<◌, Bool, true, false,
  ◌>>=◌, Result, ok, err, assertion, Option, none, some, List, [], ◌∷◌,
}
use rip_sim.Memory
use rip_sim.Memory.{Memory, read_word, write_word}
use rip_sim.Registers
use rip_sim.Csr
use rip_sim.Csr.{Csrs, ModeKind, machine, epilogue, mode_code, mstatus, mtvec, mepc, mcause, mtval}
use rip_sim.Exceptions.{Exception, breakpoint, r0, r1, code, trap_val}
use rip_sim.Insts.{Instruction}
use rip_sim.Decoder
use rip_sim.Isa.{Machine, exec}
use rip_sim.Stats
use rip_sim.Stats.{Statistics, count_inst}

pub record Simulator : Type 0 where
  pub machine_state : Machine
  pub stats : Statistics

-- What `run` does after an instruction: `next` ends the loop's body, `again` is `continue` and
-- `stop` is `break`.
pub data Step : Type 0 where
  next again stop : Step

-- The trap in machine mode. The three writes of MSTATUS all start from the same old value.
unfoldable pub enter_trap : Exception → ℕ → Machine → Result Machine
enter_trap e inst_val s = do
  let exception_pc = s.pc
  vec ← Csr.read s.csrs mtvec
  c ← Csr.write s.csrs mepc (bit_and (u32 exception_pc) 0xfffffffe)
  c ← Csr.write c mcause (code e)
  tval ← trap_val e (u32 exception_pc) inst_val
  c ← Csr.write c mtval tval
  v ← Csr.read c mstatus
  let mie = bit_and (sar 32 v 3) 1
  c ← Csr.write c mstatus (bit_or (bit_and v 0xffffff7f) (mie <<< 7))
  c ← Csr.write c mstatus (bit_and v 0xfffffff7)
  c ← Csr.write c mstatus (bit_or (bit_and v 0xffffe7ff) (mode_code s.mode <<< 11))
  ok (record s { pc = sext64 (bit_and vec 0xfffffffe); csrs = c })

trap_by_mode : ModeKind → Exception → ℕ → Machine → Result (Step × Machine)
unfolding enter_trap
trap_by_mode machine e inst_val s = do s' ← enter_trap e inst_val s; ok (next, s')
trap_by_mode _ e inst_val s = err assertion

unfoldable pub handle_exception : Exception → ℕ → Machine → Result (Step × Machine)
unfolding trap_by_mode
handle_exception r0 inst_val s = ok (stop, s)
handle_exception r1 inst_val s = ok (again, record s { mode = epilogue })
handle_exception breakpoint inst_val s = ok (stop, s)
handle_exception e inst_val s = trap_by_mode s.mode e inst_val s

handle : Option Exception → ℕ → Machine → Result (Step × Machine)
unfolding handle_exception
handle none inst_val s = ok (next, s)
handle (some e) inst_val s = handle_exception e inst_val s

-- The last lines of the loop's body.
retire : Instruction → Simulator → Result Simulator
retire i s = do
  c ← Csr.inc_cycle s.machine_state.csrs
  ok (record {
    machine_state = record (s.machine_state) { csrs = c };
    stats = count_inst i.body s.stats;
  })

-- The body of the loop for the instruction `i`; `true` goes on.
unfoldable pub step : Instruction → Simulator → Result (Bool × Simulator)
unfolding handle retire
step i s = do
  (m, e) ← exec i.body s.machine_state
  (r, m) ← handle e i.val m
  let s' : Simulator = record s { machine_state = m }
  elim r [
    | next ↦ (do s'' ← retire i s'; ok (true, s''))
    | again ↦ ok (true, s')
    | stop ↦ ok (false, s')
  ]

abbrev reached : Option ℕ → ℕ → Bool
reached none pc = false
reached (some end) pc = pc == end

-- One round of the loop of `run` from the decoded instruction on, with the rounds `rest` after it.
after_step : (Simulator → Result (Option Simulator)) → Bool → Simulator → Result (Option Simulator)
after_step rest true s = rest s
after_step rest false s = ok (some s)

after_fetch :
    (Simulator → Result (Option Simulator))
    → Option ℕ
    → Option Instruction
    → Simulator
    → Result (Option Simulator)
unfolding after_step
after_fetch rest end_address none s = ok (some s)
after_fetch rest end_address (some i) s = elim (reached end_address s.machine_state.pc) [
  | true ↦ ok (some s)
  | false ↦ (do (go_on, s') ← step i s; after_step rest go_on s')
]

-- The loop of `run`, on fuel; `none` means that the fuel ran out. `StartAddress` is not used.
unfoldable pub run : ℕ → Option ℕ → Simulator → Result (Option Simulator)
unfolding after_fetch
run zero end_address s = ok none
run (suc fuel) end_address s = do
  w ← read_word s.machine_state.mem s.machine_state.pc
  after_fetch (run fuel end_address) end_address (Decoder.decode w) s

-- The loop of the constructor, which loads the words of the input.
unfoldable pub load_binary : List ℕ → ℕ → Memory → Result Memory
load_binary [] p m = ok m
load_binary (w ∷ ws) p m = do m ← write_word m p w; load_binary ws (u64 (p + 4)) m

unfoldable pub init : List ℕ → ℕ → ℕ → Option ℕ → Result Simulator
unfolding load_binary
init words dram_size dram_base spi = do
  m ← load_binary words dram_base (Memory.init dram_size dram_base)
  ok (record {
    machine_state = record {
      pc = dram_base;
      regs = Registers.init dram_size dram_base spi;
      mem = m;
      csrs = Csr.init;
      mode = machine;
      console = [];
    };
    stats = Stats.init;
  })
