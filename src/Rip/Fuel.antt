-- ===== src/Rip/Fuel.antt =====
-- The fuel of `run` in lib/RIPSimulator/RIPSimulator.cpp does not change its result.
use native.Mathlib.Nat.{add-zero, add-suc}
use rip_sim.Base.{
  ℕ, zero, suc, ◌+◌, ◌||◌, ◌≡◌, ok, err, Option, some, none, Result, ◌>>=◌, Bool, true, false,
  arith, Fault,
}
use rip_sim.Rip.State.{Rip}
use rip_sim.Rip.Cycle.{proceed_n_stage, reached, run_loop, run}

not_err : {x : Fault} {t : Rip} → ◌≡◌ {A = Result (Option Rip)} (err x) (ok (some t)) → ⊥
not_err e = absurd (ground (arith, e))

not_none : {t : Rip} → ◌≡◌ {A = Result (Option Rip)} (ok none) (ok (some t)) → ⊥
not_none e = absurd (ground (arith, e))

-- A round of the loop, with what is left of it in `f`.
abbrev after_round : (Rip → Result (Option Rip)) → Option ℕ → Bool → Rip → Result (Option Rip)
after_round f end_address done s = elim (done || reached end_address s.pc) [
  | true ↦ ok (some s)
  | false ↦ f s
]

module _ (f g : Rip → Result (Option Rip)) (t : Rip)
    (inc : (s : Rip) → f s ≡ ok (some t) → g s ≡ ok (some t)) where
  unless_done :
      (b : Bool) (s : Rip)
      → elim b [ true ↦ ok (some s) | false ↦ f s ] ≡ ok (some t)
      → elim b [ true ↦ ok (some s) | false ↦ g s ] ≡ ok (some t)
  unless_done true s e = e
  unless_done false s e = inc s e

  round_more :
      (r : Result (Bool × Rip)) (end_address : Option ℕ)
      → (do (done, s') ← r; after_round f end_address done s') ≡ ok (some t)
      → (do (done, s') ← r; after_round g end_address done s') ≡ ok (some t)
  round_more (ok (done, s)) end_address e = unless_done (done || reached end_address s.pc) s e
  round_more (err x) end_address e = absurd (not_err e)

run_loop-suc :
    (fuel : ℕ) (end_address : Option ℕ) (s t : Rip)
    → run_loop fuel end_address s ≡ ok (some t)
    → run_loop (suc fuel) end_address s ≡ ok (some t)
unfolding run_loop
run_loop-suc zero end_address s t e = absurd (not_none e)
run_loop-suc (suc fuel) end_address s t e =
    round_more (run_loop fuel end_address) (run_loop (suc fuel) end_address) t
      (λ s' e'. run_loop-suc fuel end_address s' t e') (proceed_n_stage 1 s) end_address e

run_loop_more :
    (fuel more : ℕ) (end_address : Option ℕ) (s t : Rip)
    → run_loop fuel end_address s ≡ ok (some t)
    → run_loop (fuel + more) end_address s ≡ ok (some t)
run_loop_more fuel zero end_address s t e = rw (add-zero fuel) e
run_loop_more fuel (suc more) end_address s t e =
    rw (add-suc fuel more)
      (run_loop-suc (fuel + more) end_address s t (run_loop_more fuel more end_address s t e))

-- A result that run of the pipelined simulator reaches on some fuel is its result on any greater
-- fuel.
pub run-run_more :
    (fuel more : ℕ) (start end_address : Option ℕ) (s t : Rip)
    → run fuel start end_address s ≡ ok (some t)
    → run (fuel + more) start end_address s ≡ ok (some t)
unfolding run
run-run_more fuel more none end_address s t e = run_loop_more fuel more end_address s t e
run-run_more fuel more (some start) end_address s t e =
    run_loop_more fuel more end_address (record s { pc = start }) t e
