-- ===== src/Rip/Transparent.antt =====
-- `runInteractively` against `run` of lib/RIPSimulator/RIPSimulator.cpp.
use rip_sim.Base.{
  ℕ, zero, suc, ◌≡◌, refl, Bool, true, false, ◌||◌, Option, none, some, Result, ok, err, ◌>>=◌,
}
use rip_sim.Rip.State.{Rip}
use rip_sim.Rip.Cycle.{proceed_n_stage, reached, run_loop, run}
use rip_sim.Rip.Interactive.{
  Console, Interaction, take_word, print, unless_reached, unless_done, interact, run_interactively,
}

-- The machine that an interaction leaves.
abbrev machine_part : Option (Rip × Console) → Option Rip
machine_part none = none
machine_part (some (s, c)) = some s

abbrev pub left : Interaction → Result (Option Rip)
left r = do o ← r; ok (machine_part o)

module _ (loop : Rip → Console → Interaction) (f : Rip → Result (Option Rip))
    (same : (s : Rip) (c : Console) → left (loop s c) ≡ f s) where
  left-unless_reached :
      (b : Bool) (s : Rip) (c : Console)
      → left (unless_reached loop b s c) ≡ elim b [ true ↦ ok (some s) | false ↦ f s ]
  left-unless_reached true s c = refl
  left-unless_reached false s c = same s (print s c)

  left-unless_done :
      (r : Result (Bool × Rip)) (end_address : Option ℕ) (c : Console)
      → left (do (done, s) ← r; unless_done loop end_address done s c) ≡ (do
        (done, s) ← r
        elim (done || reached end_address s.pc) [ true ↦ ok (some s) | false ↦ f s ])
  left-unless_done (ok (true, s)) end_address c = refl
  left-unless_done (ok (false, s)) end_address c =
      left-unless_reached (reached end_address s.pc) s (take_word c)
  left-unless_done (err x) end_address c = refl

left-interact :
    (fuel : ℕ) (end_address : Option ℕ) (s : Rip) (c : Console)
    → left (interact fuel end_address s c) ≡ run_loop fuel end_address s
unfolding interact run_loop
left-interact zero end_address s c = refl
left-interact (suc fuel) end_address s c =
    left-unless_done (interact fuel end_address) (run_loop fuel end_address)
      (left-interact fuel end_address) (proceed_n_stage 1 s) end_address c

-- On any fuel and any input, runInteractively leaves the machine that run leaves, runs out of fuel
-- where run does, and ends in the fault in which run ends.
pub left-run_interactively :
    (fuel : ℕ) (start end_address : Option ℕ) (s : Rip) (c : Console)
    → left (run_interactively fuel start end_address s c) ≡ run fuel start end_address s
unfolding run_interactively run
left-run_interactively fuel none end_address s c = left-interact fuel end_address s c
left-run_interactively fuel (some start) end_address s c =
    left-interact fuel end_address (record s { pc = start }) c
