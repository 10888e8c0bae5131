-- ===== src/Rip/Flow/Rounds.antt =====
-- One round of `proceedNStage` of lib/RIPSimulator/RIPSimulator.cpp as a cycle of a straight
-- program.
use mathlib.Core.Path.{subst}
use rip_sim.Base.{
  ℕ, suc, ◌+◌, ◌≡◌, refl, ap, ◌∙◌, sym, ok, ◌>>=◌, Option, none, some, Bool, true, false, u64,
}
use rip_sim.Memory.{read_word}
use rip_sim.Decoder
use rip_sim.Insts.{Instruction}
use rip_sim.Pipe.{if_stage, de_stage, is_empty, proceed, proceed_pc}
use rip_sim.Rip.State.{Rip}
use rip_sim.Rip.Cycle.{
  advance, work, after_advance, proceed_n_stage, run_loop, finish_cycle, round, running, drained,
}
use rip_sim.Rip.Flow.Moves.{View, view, Holds, Latched, cycle, fetch}
use rip_sim.Rip.Flow.Moves
use rip_sim.Rip.Flow.Work.{Ready, work_lem, Free, finish_cycle_lem}

-- The move of the stages.
pub moved :
    (pc : ℕ) (fetched : Option Instruction) (s : Rip) (next : ℕ)
    → Free s
    → view (record s { ps = proceed fetched (proceed_pc pc s.ps); pc = next })
      ≡ record (fetch fetched (view s)) { pc = next; if_pc = pc }
unfolding proceed proceed_pc
moved pc fetched s next free = rw (free.0 0, free.0 1, free.0 2, free.0 3) refl

abbrev pub fetched_as : Option Instruction → Rip → Rip
fetched_as o s = record s { ps = proceed o (proceed_pc s.pc s.ps); pc = Moves.next_pc o s.pc }

advance-Free :
    (s : Rip)
    → Free s
    → advance s ≡ (do
      w ← read_word s.mem s.pc
      let inst = Decoder.decode w
      ok (record s {
        ps = proceed inst (proceed_pc s.pc s.ps);
        pc = elim inst [ some i ↦ u64 (s.pc + 4) | none ↦ s.pc ];
      }))
unfolding advance
advance-Free s free = rw (free.0 if_stage, advance) refl

pub advance_lem :
    (s : Rip) (w : ℕ) (o : Option Instruction)
    → Free s
    → read_word s.mem s.pc ≡ ok w
    → Decoder.decode w ≡ o
    → advance s ≡ ok (fetched_as o s)
advance_lem s w none free r d = advance-Free s free ∙ rw (r, d) refl
advance_lem s w (some i) free r d = advance-Free s free ∙ rw (r, d) refl

busy_lem :
    (s t u : Rip)
    → is_empty s.ps ≡ false
    → work s ≡ ok (t, none)
    → finish_cycle t ≡ ok u
    → after_advance s ≡ ok (running, u)
unfolding after_advance
busy_lem s t u busy e f = rw (busy, after_advance, e, f) refl

round-advance : (s t : Rip) → advance s ≡ ok t → round s ≡ after_advance t
unfolding round
round-advance s t e = rw e refl

-- A round that goes on.
pub record Rounds (s : Rip) (v : View) : Type 0 where
  pub after : Rip
  pub returns : round s ≡ ok (running, after)
  pub sees : view after ≡ v
  pub free : Free after
  pub busy : is_empty after.ps ≡ false

-- No stage of the view holds an instruction.
abbrev pub bare : View → Bool
bare v = elim v.wb_inst [
  | some i ↦ false
  | none ↦ elim v.ma_inst [
    | some i ↦ false
    | none ↦ elim v.ex_inst [
      | some i ↦ false
      | none ↦ elim v.de_inst [
        | some i ↦ false
        | none ↦ elim v.if_inst [ some i ↦ false | none ↦ true ]
      ]
    ]
  ]
]

pub is_empty-bare : (s : Rip) → is_empty s.ps ≡ bare (view s)
unfolding is_empty
is_empty-bare s = refl

fetched_as-Free : (o : Option Instruction) (s : Rip) → Free s → Free (fetched_as o s)
unfolding proceed proceed_pc
fetched_as-Free o s free = free

pub round_lem :
    (s : Rip) (w : ℕ) (o : Option Instruction)
    → Free s
    → read_word s.mem s.pc ≡ ok w
    → Decoder.decode w ≡ o
    → is_empty (fetched_as o s).ps ≡ false
    → Ready (fetch o (view s))
    → Rounds s (cycle o (view s))
round_lem s w o free r d busy ready =
    let s1 = fetched_as o s in
    let e = moved s.pc o s (Moves.next_pc o s.pc) free in
    let free1 = fetched_as-Free o s free in
    let st = work_lem s1 (free1.0 de_stage) (subst Ready (sym e) ready) in
    let free2 : Free st.after = rw (st.stalled, st.invalid, st.branch_pc, st.bp) free1 in
    let f = finish_cycle_lem st.after free2 in
    let sees =
      f.sees
      ∙ st.sees
      ∙ ap (λ v. Moves.decode (Moves.exec (Moves.memoryaccess (Moves.writeback v)))) e in
    record {
      after = f.after;
      returns =
          round-advance s s1 (advance_lem s w o free r d)
          ∙ busy_lem s1 st.after f.after busy st.returns f.returns;
      sees = sees;
      free = f.free;
      busy = is_empty-bare f.after ∙ ap bare sees ∙ ap bare (sym e) ∙ sym (is_empty-bare s1) ∙ busy;
    }

-- The loop of `run` over such a round, and at the end.
pub run_loop-running :
    (k : ℕ) (s t : Rip)
    → round s ≡ ok (running, t)
    → is_empty t.ps ≡ false
    → run_loop (suc k) none s ≡ run_loop k none t
unfolding run_loop proceed_n_stage
run_loop-running k s t e b = rw (e, b) refl

pub run_loop-drained :
    (k : ℕ) (s t : Rip)
    → advance s ≡ ok t
    → is_empty t.ps ≡ true
    → run_loop (suc k) none s ≡ ok (some t)
unfolding run_loop proceed_n_stage after_advance
run_loop-drained k s t e b =
    let r : round s ≡ ok (drained, t) = round-advance s t e ∙ rw (b, after_advance) refl in
    rw (r, b) refl
