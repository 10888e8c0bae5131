-- ===== src/Pipe/Shift.antt =====
-- How the stages of include/RIPSimulator/PipelineStates.h move.
use rip_sim.Base.{
  ℕ, zero, suc, ◌<◌, ◌≡◌, refl, arith, Bool, true, false, Option, none, update, ◌↔◌, ◌==◌, ltb,
  ◌&&◌, if◌then◌else◌, ◌∙◌,
}
use rip_sim.Insts.{Instruction}
use rip_sim.Pipe.{
  PipelineStates, if_stage, de_stage, ex_stage, ma_stage, wb_stage, proceed, clear_stall, set_stall,
  is_empty, fill_bubble, bubbles_below, clear_below,
}

-- With no stage stalled, proceed puts the new instruction in IF and moves every other instruction
-- to the next stage.
pub proceed-insts :
    (inst : Option Instruction) (ps : PipelineStates)
    → ((n : ℕ) → ps.stalled_stages n ≡ false)
    → ((proceed inst ps).insts if_stage ≡ inst)
      × ((n : ℕ) → n < 4 → (proceed inst ps).insts (suc n) ≡ ps.insts n)
unfolding proceed
proceed-insts inst ps free = (
  ground (arith, free 0, free 1, free 2, free 3),
  λ n h. ground (arith, free 0, free 1, free 2, free 3),
)

-- With exactly IF and DE stalled, proceed keeps the instructions in IF and DE, puts a bubble in
-- EX, and moves EX to MA and MA to WB.
pub proceed_stalled :
    (inst : Option Instruction) (ps : PipelineStates)
    → let ps' = proceed inst (set_stall if_stage (set_stall de_stage (clear_stall ps))) in
      (ps'.insts if_stage ≡ ps.insts if_stage)
      × (ps'.insts de_stage ≡ ps.insts de_stage)
      × (ps'.insts ex_stage ≡ none)
      × (ps'.insts ma_stage ≡ ps.insts ex_stage)
      × (ps'.insts wb_stage ≡ ps.insts ma_stage)
unfolding proceed clear_stall
proceed_stalled inst ps = ground arith

-- The pipeline is empty exactly if none of its stages holds an instruction.
pub is_empty_iff :
    (ps : PipelineStates) → (is_empty ps ≡ true) ↔ ((n : ℕ) → n < 5 → ps.insts n ≡ none)
unfolding is_empty
is_empty_iff ps = (λ e n h. ground arith, λ f. ground (arith, f 0, f 1, f 2, f 3, f 4))

update_if-at :
    (b : Bool) (insts : ℕ → Option Instruction) (k n : ℕ)
    → (if b then update insts k none else insts) n ≡ (if b && n == k then none else insts n)
update_if-at true insts k n = ground arith
update_if-at false insts k n = refl

bubbles_below-at :
    (k : ℕ) (invalid : ℕ → Bool) (insts : ℕ → Option Instruction) (n : ℕ)
    → bubbles_below k invalid insts n ≡ (if ltb n k && invalid n then none else insts n)
unfolding bubbles_below
bubbles_below-at zero invalid insts n = ground arith
bubbles_below-at (suc k) invalid insts n =
    bubbles_below-at k invalid (if invalid k then update insts k none else insts) n
    ∙ ground (arith, update_if-at (invalid k) insts k n)

-- fillBubble empties a stage exactly if it is marked invalid, and leaves no stage marked.
pub fill_bubble_lem :
    (ps : PipelineStates) (n : ℕ)
    → n < 5
    → ((fill_bubble ps).insts n ≡ (if ps.invalid_stages n then none else ps.insts n))
      × ((fill_bubble ps).invalid_stages n ≡ false)
unfolding fill_bubble
fill_bubble_lem ps n h =
    (bubbles_below-at 5 ps.invalid_stages ps.insts n ∙ ground arith, ground arith)

clear_below-false :
    (k : ℕ) (f : ℕ → Bool) → ((n : ℕ) → f n ≡ false) → (n : ℕ) → clear_below k f n ≡ false
unfolding clear_below
clear_below-false zero f h n = h n
clear_below-false (suc k) f h n =
    clear_below-false k (update f k false) (λ j. let e = h j in ground arith) n

-- With no stage marked, fillBubble changes no stage and no mark.
pub fill_bubble_unmarked :
    (ps : PipelineStates)
    → ((n : ℕ) → ps.invalid_stages n ≡ false)
    → ((n : ℕ) → (fill_bubble ps).insts n ≡ ps.insts n)
      × ((n : ℕ) → (fill_bubble ps).invalid_stages n ≡ false)
unfolding fill_bubble
fill_bubble_unmarked ps h = (
  λ n. bubbles_below-at 5 ps.invalid_stages ps.insts n ∙ (let e = h n in ground arith),
  clear_below-false 5 ps.invalid_stages h,
)
