-- ===== src/Rip/Flow/Work.antt =====
-- The stages of a round of `proceedNStage` of lib/RIPSimulator/RIPSimulator.cpp, and its end, in a
-- straight program.
use mathlib.Core.Path.{subst}
use rip_sim.Base.{
  ℕ, ◌≡◌, refl, ap, ◌∙◌, sym, ok, Result, ◌>>=◌, Option, none, some, Bool, false, add32,
}
use rip_sim.Csr
use rip_sim.Csr.{Csrs}
use rip_sim.Pipe.{de_stage, ex_stage, PipelineStates, fill_bubble}
use rip_sim.Predictor.Dispatch.{BranchPredictor}
use rip_sim.Pipe.Shift.{fill_bubble_unmarked}
use rip_sim.Rip.State.{Rip}
use rip_sim.Rip.Cycle.{work, redirect, finish_cycle, count}
use rip_sim.Rip.Flow.Moves.{View, view, Holds, Latched, cycle, fetch}
use rip_sim.Rip.Flow.Moves
use rip_sim.Rip.Flow.Stages.{Stage, wb_stage_lem, ma_stage_lem}
use rip_sim.Rip.Flow.Operands.{ex_stage_lem, de_stage_lem}

-- What the stages need behind the fetch.
abbrev pub Ready : View → Type 0
Ready v =
    Holds v.wb_inst
    × Holds v.ma_inst
    × Holds v.ex_inst
    × Holds v.de_inst
    × Latched v.ex_inst v.de_imm

pub work_lem :
    (s : Rip)
    → s.ps.stalled_stages de_stage ≡ false
    → Ready (view s)
    → Stage
        (λ t. work s ≡ ok (t, none))
        s
        (Moves.decode (Moves.exec (Moves.memoryaccess (Moves.writeback (view s)))))
unfolding work
work_lem s free h =
    let a = wb_stage_lem s h.0 in
    let in_a : Ready (view a.after) = subst Ready (sym a.sees) h in
    let b = ma_stage_lem a.after in_a.1 in
    let in_b : Ready (view b.after) = subst Ready (sym b.sees) in_a in
    let c = ex_stage_lem b.after in_b.2 in_b.4 in
    let in_c : Ready (view c.after) = subst Ready (sym c.sees) in_b in
    let stalled = c.stalled ∙ b.stalled ∙ a.stalled in
    let d = de_stage_lem c.after (ap (λ f. f de_stage) stalled ∙ free) in_c.3 in_c.2 in_c.1 in
    record {
      after = d.after;
      returns = rw (a.returns, b.returns, c.returns, d.returns) refl;
      sees =
          d.sees ∙ ap Moves.decode (c.sees ∙ ap Moves.exec (b.sees ∙ ap Moves.memoryaccess a.sees));
      stalled = d.stalled ∙ stalled;
      invalid = d.invalid ∙ c.invalid ∙ b.invalid ∙ a.invalid;
      branch_pc = d.branch_pc ∙ c.branch_pc ∙ b.branch_pc ∙ a.branch_pc;
      bp = d.bp ∙ c.bp ∙ b.bp ∙ a.bp;
    }

-- No stage is stalled or marked, and no branch is pending or predicted.
abbrev pub Quiet : Option BranchPredictor → Type 0
Quiet none = Unit
Quiet (some bp) = bp.branch_pred_pc ≡ none

abbrev Calm : (ℕ → Bool) → (ℕ → Bool) → Option ℕ → Option BranchPredictor → Type 0
Calm stalled invalid branch_pc bp =
    ((k : ℕ) → stalled k ≡ false) × ((k : ℕ) → invalid k ≡ false) × (branch_pc ≡ none) × Quiet bp

abbrev pub Free : Rip → Type 0
Free s = Calm s.ps.stalled_stages s.ps.invalid_stages s.ps.branch_pc s.bp

redirect-Calm :
    (s : Rip)
    → s.ps.branch_pc ≡ none
    → (o : Option BranchPredictor) → Quiet o
    → redirect (record s { bp = o }) ≡ record s { bp = o; ps = record (s.ps) { branch_pc = none } }
unfolding redirect
redirect-Calm s e none q = rw e refl
redirect-Calm s e (some bp) q = rw (e, q) refl

pub record Finished (s : Rip) : Type 0 where
  pub after : Rip
  pub returns : finish_cycle s ≡ ok after
  pub sees : view after ≡ view s
  pub free : Free after

pub inc_cycle-ok : (c : Csrs) → (c' : Csrs) × (Csr.inc_cycle c ≡ ok c')
unfolding Csr.inc_cycle
inc_cycle-ok c = (_, refl)

-- What follows `redirect`.
abbrev finish_from : Rip → Result Rip
finish_from s = do
  c ← Csr.inc_cycle s.csrs
  let ps = fill_bubble s.ps
  ok (record s {
    ps = ps;
    num_stages = add32 s.num_stages 1;
    csrs = c;
    stats = count (ps.insts ex_stage) s.stats;
  })

finish_cycle-Calm :
    (s : Rip)
    → Free s
    → finish_cycle s ≡ finish_from (record s { ps = record (s.ps) { branch_pc = none } })
unfolding finish_cycle
finish_cycle-Calm s (stalled, invalid, branch, q) = ap finish_from (redirect-Calm s branch s.bp q)

pub finish_cycle_lem : (s : Rip) → Free s → Finished s
unfolding fill_bubble
finish_cycle_lem s free =
    let (stalled, invalid, branch, q) = free in
    let (c, e) = inc_cycle-ok s.csrs in
    let ps' : PipelineStates = record (s.ps) { branch_pc = none } in
    let (same, unmarked) = fill_bubble_unmarked ps' invalid in
    record {
      after = record s {
        ps = fill_bubble ps';
        num_stages = add32 s.num_stages 1;
        csrs = c;
        stats = count ((fill_bubble ps').insts ex_stage) s.stats;
      };
      returns = finish_cycle-Calm s free ∙ rw e refl;
      sees = rw (same 0, same 1, same 2, same 3, same 4) refl;
      free = (stalled, unmarked, refl, q);
    }
