-- ===== src/Simulator/Ranges.antt =====
-- The constructor of lib/Simulator/Simulator.cpp and the body of the loop of `run` keep registers,
-- CSRs, memory and PC in the range of their types.
use rip_sim.Base.{
  ℕ, ◌<◌, ◌^◌, ◌+◌, arith, ok, Result, ◌>>=◌, Option, none, some, Bool, true, false, List, AllOk,
  holds, fails, all_bind, [], ◌∷◌, u64,
}
use rip_sim.Memory
use rip_sim.Memory.{Memory, read_word, write_word}
use rip_sim.Memory.Cells.{Bytes, write_word-AllOk}
use rip_sim.Registers
use rip_sim.Csr
use rip_sim.Csr.{
  Csrs, ModeKind, user, supervisor, hypervisor, machine, epilogue, mode_code, mstatus, mtvec, mepc,
  mcause, mtval,
}
use rip_sim.Exceptions.{Exception, breakpoint, r0, r1}
use rip_sim.Insts.{Instruction}
use rip_sim.Isa.{Machine, exec}
use rip_sim.Isa.Words.{IsWord}
use rip_sim.Isa.Typed.{IsTyped, Words}
use rip_sim.Isa.Ranges.{exec-Types, FieldsFit}
use rip_sim.Stats.{Statistics}
use rip_sim.Simulator.{
  Simulator, Step, next, again, stop, enter_trap, handle_exception, trap_by_mode, step, retire,
  load_binary, init, handle,
}
use rip_sim.Simulator.TrapRanges.{enter_trap-AllOk}

-- The handler, the step and the loop.
abbrev TypedAfter : {A : Type 0} → Result (A × Machine) → Type 0
TypedAfter = AllOk (λ p. IsTyped p.1)

trap_by_mode-TypedAfter :
    (m : ModeKind) (e : Exception) (inst_val : ℕ) (s : Machine)
    → IsWord inst_val
    → IsTyped s
    → TypedAfter (trap_by_mode m e inst_val s)
unfolding trap_by_mode
trap_by_mode-TypedAfter machine e inst_val s hv t =
    all_bind (enter_trap e inst_val s) _ (enter_trap-AllOk e inst_val s hv t) (λ s' t'. holds t')
trap_by_mode-TypedAfter _ e inst_val s hv t = fails

handle_exception-TypedAfter :
    (e : Exception) (inst_val : ℕ) (s : Machine)
    → IsWord inst_val
    → IsTyped s
    → TypedAfter (handle_exception e inst_val s)
unfolding handle_exception
handle_exception-TypedAfter r0 inst_val s hv t = holds t
handle_exception-TypedAfter r1 inst_val s hv t =
    holds (record { regs = t.regs; csrs = t.csrs; mem = t.mem; pc = t.pc })
handle_exception-TypedAfter breakpoint inst_val s hv t = holds t
handle_exception-TypedAfter e inst_val s hv t = trap_by_mode-TypedAfter s.mode e inst_val s hv t

handle-TypedAfter :
    (o : Option Exception) (inst_val : ℕ) (s : Machine)
    → IsWord inst_val
    → IsTyped s
    → TypedAfter (handle o inst_val s)
unfolding handle
handle-TypedAfter none inst_val s hv t = holds t
handle-TypedAfter (some e) inst_val s hv t = handle_exception-TypedAfter e inst_val s hv t

inc_cycle-AllOk : (c : Csrs) → Words c → AllOk Words (Csr.inc_cycle c)
unfolding Csr.inc_cycle
inc_cycle-AllOk c words = holds (λ j. let w = words j in ground arith)

retire-AllOk :
    (i : Instruction) (s : Simulator)
    → IsTyped s.machine_state
    → AllOk (λ s'. IsTyped s'.machine_state) (retire i s)
unfolding retire
retire-AllOk i s t =
    all_bind (Csr.inc_cycle s.machine_state.csrs) _ (inc_cycle-AllOk s.machine_state.csrs t.csrs)
      (λ c words. holds (record { regs = t.regs; csrs = words; mem = t.mem; pc = t.pc }))

-- What follows the handler.
abbrev go_on : Instruction → Statistics → Step → Machine → Result (Bool × Simulator)
go_on i st r m =
    let s' : Simulator = record { machine_state = m; stats = st } in
    elim r [
      | next ↦ (do s'' ← retire i s'; ok (true, s''))
      | again ↦ ok (true, s')
      | stop ↦ ok (false, s')
    ]

abbrev pub Runs : Bool × Simulator → Type 0
Runs p = IsTyped p.1.machine_state

go_on-Runs :
    (i : Instruction) (st : Statistics) (r : Step) (m : Machine)
    → IsTyped m
    → AllOk Runs (go_on i st r m)
go_on-Runs i st next m t =
    all_bind (retire i (record { machine_state = m; stats = st })) _
      (retire-AllOk i (record { machine_state = m; stats = st }) t) (λ s t'. holds t')
go_on-Runs i st again m t = holds t
go_on-Runs i st stop m t = holds t

pub step-Runs :
    (i : Instruction) (s : Simulator)
    → FieldsFit i.body
    → IsWord i.val
    → IsTyped s.machine_state
    → AllOk Runs (step i s)
unfolding step
step-Runs i s fit hv t =
    all_bind (exec i.body s.machine_state) _ (exec-Types i.body s.machine_state fit t) (λ p t1.
      all_bind (handle p.1 i.val p.0) _ (handle-TypedAfter p.1 i.val p.0 hv t1)
        (λ q t2. go_on-Runs i s.stats q.0 q.1 t2))

-- The constructor.
load_binary-Bytes : (ws : List ℕ) (p : ℕ) (m : Memory) → Bytes m → AllOk Bytes (load_binary ws p m)
unfolding load_binary
load_binary-Bytes [] p m b = holds b
load_binary-Bytes (w ∷ ws) p m b =
    all_bind (write_word m p w) _ (write_word-AllOk m p w b)
      (λ m' b'. load_binary-Bytes ws (u64 (p + 4)) m' b')

init-Words : (size base : ℕ) (spi : Option ℕ) → Words (Registers.init size base spi)
unfolding Registers.init
init-Words size base none j = ground arith
init-Words size base (some v) j = ground arith

pub init-Typed :
    (ws : List ℕ) (size base : ℕ) (spi : Option ℕ)
    → base < 2 ^ 64
    → AllOk (λ s. IsTyped s.machine_state) (init ws size base spi)
unfolding init
init-Typed ws size base spi h =
    all_bind (load_binary ws base (Memory.init size base)) _
      (load_binary-Bytes ws base (Memory.init size base) (λ j. omega arith))
      (λ m b.
        holds
          (record { regs = init-Words size base spi; csrs = λ j. omega arith; mem = b; pc = h }))
