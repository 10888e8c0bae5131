-- ===== src/Rip/Flow/Follows.antt =====
-- A cycle of lib/RIPSimulator/RIPSimulator.cpp against `exec` of lib/Instructions.cpp, with other
-- instructions in flight.
use mathlib.Core.Path.{subst}
use rip_sim.Base.{ℕ, ◌+◌, ◌≡◌, ap, ◌∙◌, sym, ok, none, some, false, u64, arith}
use rip_sim.Memory.{read_word}
use rip_sim.Decoder
use rip_sim.Insts.{Instruction}
use rip_sim.Pipe.{is_empty, proceed, proceed_pc}
use rip_sim.Isa
use rip_sim.Isa.{Machine}
use rip_sim.Rip.State.{Rip}
use rip_sim.Rip.Cycle.{round, running}
use rip_sim.Rip.Flow.Moves.{view, Plain}
use rip_sim.Rip.Flow.Work.{Free}
use rip_sim.Rip.Flow.Rounds.{fetched_as, round_lem}
use rip_sim.Rip.Flow.Retire.{retired, Straight, cycle-Straight, retired-cycle}
use rip_sim.Rip.Flow.Executes.{executed, exec-Plain}

-- The machine is where the pipeline will be once all instructions in flight have retired.
abbrev pub Tracks : Machine → Rip → Type 0
Tracks m s = (m.pc ≡ s.pc) × (m.regs ≡ retired (view s)) × (m.mem ≡ s.mem)

busy-some : (i : Instruction) (s : Rip) → Free s → is_empty (fetched_as (some i) s).ps ≡ false
unfolding is_empty proceed proceed_pc
busy-some i s free = ground (arith, free.0 0, free.0 1, free.0 2, free.0 3)

pub record Follows (i : Instruction) (m : Machine) (s : Rip) : Type 0 where
  pub after : Rip
  pub machine : Machine
  pub returns : round s ≡ ok (running, after)
  pub executes : Isa.exec i.body m ≡ ok (machine, none)
  pub tracks : Tracks machine after
  pub free : Free after
  pub straight : Straight (view after)
  pub pc : after.pc ≡ u64 (s.pc + 4)
  pub mem : after.mem ≡ s.mem
  pub busy : is_empty after.ps ≡ false

-- Say that a machine tracks the pipeline if it has its PC and memory, and the registers that the
-- pipeline will have once the instructions in its stages have retired. In a pipeline whose stages
-- hold arithmetic instructions with destinations other than x0, or nothing, with the immediate of
-- the one in DE latched, no stage stalled or marked invalid and no branch pending or predicted: a
-- round that fetches such an instruction goes on, exec of the instruction-level simulator succeeds
-- on a machine that tracks the pipeline, what it leaves tracks the pipeline behind the round, and
-- the conditions hold again.
pub round-Follows :
    (i : Instruction) (w : ℕ) (m : Machine) (s : Rip)
    → Free s
    → Straight (view s)
    → Plain i
    → read_word s.mem s.pc ≡ ok w
    → Decoder.decode w ≡ some i
    → Tracks m s
    → Follows i m s
round-Follows i w m s free straight plain r d (pc, regs, mem) =
    let c =
      round_lem s w (some i) free r d (busy-some i s free)
        (straight.3, straight.2, straight.1, straight.0, straight.4) in
    record {
      after = c.after;
      machine = executed i m;
      returns = c.returns;
      executes = exec-Plain i.body i.val m plain;
      tracks = (
        ap (λ x. u64 (x + 4)) pc ∙ sym (ap (λ v. v.pc) c.sees),
        rw (pc, regs) (sym (retired-cycle (some i) (view s))) ∙ sym (ap retired c.sees),
        mem ∙ sym (ap (λ v. v.mem) c.sees),
      );
      free = c.free;
      straight = subst Straight (sym c.sees) (cycle-Straight (some i) (view s) plain straight);
      pc = ap (λ v. v.pc) c.sees;
      mem = ap (λ v. v.mem) c.sees;
      busy = c.busy;
    }
