-- ===== src/Rip/Flow/Drain.antt =====
-- The end of `run` of lib/RIPSimulator/RIPSimulator.cpp: the last instructions leave the pipeline.
use mathlib.Core.Path.{subst}
use rip_sim.Base.{
  ℕ, zero, suc, ◌≡◌, refl, ap, ◌∙◌, sym, ok, none, some, true, Bool-cases, inl, inr, arith,
}
use rip_sim.Memory.{Memory, read_word}
use rip_sim.Decoder
use rip_sim.Pipe.{is_empty}
use rip_sim.Pipe.Shift.{is_empty_iff}
use rip_sim.Rip.State.{Rip}
use rip_sim.Rip.Cycle.{run_loop}
use rip_sim.Rip.Flow.Moves.{View, view, cycle, fetch}
use rip_sim.Rip.Flow.Work.{Free}
use rip_sim.Rip.Flow.Rounds.{
  fetched_as, round_lem, moved, bare, is_empty-bare, advance_lem, run_loop-running,
  run_loop-drained,
}
use rip_sim.Rip.Flow.Retire.{retired, Straight, cycle-Straight, retired-cycle}

-- The word at the PC decodes to no instruction.
abbrev pub AtEnd : Memory → ℕ → Type 0
AtEnd mem pc = (w : ℕ) × (read_word mem pc ≡ ok w) × (Decoder.decode w ≡ none)

-- After at most `k` rounds without a fetch, only WB can hold an instruction.
abbrev pub Clear : ℕ → View → Type 0
Clear zero v = (v.if_inst ≡ none) × (v.de_inst ≡ none) × (v.ex_inst ≡ none) × (v.ma_inst ≡ none)
Clear (suc zero) v = (v.if_inst ≡ none) × (v.de_inst ≡ none) × (v.ex_inst ≡ none)
Clear (suc (suc zero)) v = (v.if_inst ≡ none) × (v.de_inst ≡ none)
Clear (suc (suc (suc zero))) v = v.if_inst ≡ none
Clear _ v = Unit

cycle-Clear : (k : ℕ) (v : View) → Clear (suc k) v → Clear k (cycle none v)
cycle-Clear zero v (h1, h2, h3) = (refl, h1, h2, h3)
cycle-Clear (suc zero) v (h1, h2) = (refl, h1, h2)
cycle-Clear (suc (suc zero)) v h = (refl, h)
cycle-Clear (suc (suc (suc zero))) v h = refl
cycle-Clear (suc (suc (suc (suc k)))) v h = tt

retired-Clear : (v : View) → Clear 0 v → retired v ≡ v.regs
retired-Clear v (h1, h2, h3, h4) = rw (h1, h2, h3, h4) refl

-- The pipeline is empty behind such a fetch exactly if only WB held an instruction.
is_empty-Clear : (s : Rip) → Free s → is_empty (fetched_as none s).ps ≡ true → Clear 0 (view s)
is_empty-Clear s free e =
    let none_at = (is_empty_iff (fetched_as none s).ps).0 e in
    let m = sym (moved s.pc none s s.pc free) in
    (
      ap (λ v. v.de_inst) m ∙ none_at 1 (omega arith),
      ap (λ v. v.ex_inst) m ∙ none_at 2 (omega arith),
      ap (λ v. v.ma_inst) m ∙ none_at 3 (omega arith),
      ap (λ v. v.wb_inst) m ∙ none_at 4 (omega arith),
    )

bare-Clear : (v : View) → Clear 0 v → bare (fetch none v) ≡ true
bare-Clear v (h1, h2, h3, h4) = rw (h4, h3, h2, h1) refl

Clear-is_empty : (s : Rip) → Free s → Clear 0 (view s) → is_empty (fetched_as none s).ps ≡ true
Clear-is_empty s free h =
    is_empty-bare (fetched_as none s)
    ∙ ap bare (moved s.pc none s s.pc free)
    ∙ bare-Clear (view s) h

-- The loop ends with the registers that had been in flight.
pub record Drained (k : ℕ) (s : Rip) : Type 0 where
  pub after : Rip
  pub returns : run_loop (suc k) none s ≡ ok (some after)
  pub regs : after.regs ≡ retired (view s)
  pub pc : after.pc ≡ s.pc
  pub mem : after.mem ≡ s.mem

stops :
    (k : ℕ) (s : Rip)
    → Free s
    → AtEnd s.mem s.pc
    → is_empty (fetched_as none s).ps ≡ true
    → Drained k s
stops k s free (w, r, d) e = record {
  after = fetched_as none s;
  returns = run_loop-drained k s (fetched_as none s) (advance_lem s w none free r d) e;
  regs = sym (retired-Clear (view s) (is_empty-Clear s free e));
  pc = refl;
  mem = refl;
}

-- A pipeline whose stages hold arithmetic instructions with destinations other than x0, or
-- nothing, with the immediate of the one in DE latched, no stage stalled or marked invalid and no
-- branch pending or predicted, in front of a word that decodes to none, of whose stages IF to MA
-- only the last k can hold an instruction: the loop of run, without end address, returns within k
-- + 1 rounds, with the registers of the instructions in flight written, and PC and memory as they
-- were.
pub run_loop-Drained :
    (k : ℕ) (s : Rip)
    → Free s
    → Straight (view s)
    → Clear k (view s)
    → AtEnd s.mem s.pc
    → Drained k s
run_loop-Drained zero s free straight clear end = stops 0 s free end (Clear-is_empty s free clear)
run_loop-Drained (suc k) s free straight clear end =
    elim (Bool-cases (is_empty (fetched_as none s).ps)) [
      | inl e ↦ stops (suc k) s free end e
      | inr e ↦
          let c =
            round_lem s end.0 none free end.1 end.2 e
              (straight.3, straight.2, straight.1, straight.0, straight.4) in
          let pc = ap (λ v. v.pc) c.sees in
          let mem = ap (λ v. v.mem) c.sees in
          let rest =
            run_loop-Drained k c.after c.free
              (subst Straight (sym c.sees) (cycle-Straight none (view s) tt straight))
              (subst (Clear k) (sym c.sees) (cycle-Clear k (view s) clear))
              (
                end.0,
                ap (λ m. read_word m c.after.pc) mem ∙ ap (read_word s.mem) pc ∙ end.1,
                end.2,
              ) in
          record {
            after = rest.after;
            returns = run_loop-running (suc k) s c.after c.returns c.busy ∙ rest.returns;
            regs = rest.regs ∙ ap retired c.sees ∙ retired-cycle none (view s);
            pc = rest.pc ∙ pc;
            mem = rest.mem ∙ mem;
          }
    ]
