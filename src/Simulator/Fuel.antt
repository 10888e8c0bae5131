-- ===== src/Simulator/Fuel.antt =====
-- The fuel of `run` in lib/Simulator/Simulator.cpp does not change its result.
use native.Mathlib.Nat.{add-zero, add-suc}
use rip_sim.Base.{
  ℕ, zero, suc, ◌+◌, ◌≡◌, ok, err, Option, some, none, Result, ◌>>=◌, Bool, true, false, arith,
  Fault,
}
use rip_sim.Memory.{read_word}
use rip_sim.Decoder.{decode}
use rip_sim.Insts.{Instruction}
use rip_sim.Simulator.{Simulator, step, run, reached, after_step, after_fetch}

-- The results of `f` are results of `g`.
abbrev Includes : (f g : Simulator → Result (Option Simulator)) → Type 0
Includes f g = (s t : Simulator) → f s ≡ ok (some t) → g s ≡ ok (some t)

not_err : {x : Fault} {t : Simulator} → err x ≡ ok (some t) → ⊥
not_err e = absurd (ground (arith, e))

not_none : {t : Simulator} → ◌≡◌ {A = Result (Option Simulator)} (ok none) (ok (some t)) → ⊥
not_none e = absurd (ground (arith, e))

module _ (f g : Simulator → Result (Option Simulator)) (inc : Includes f g) (end_address : Option ℕ)
    (t : Simulator) where
  after_step_more :
      (r : Result (Bool × Simulator))
      → (do (go_on, s') ← r; after_step f go_on s') ≡ ok (some t)
      → (do (go_on, s') ← r; after_step g go_on s') ≡ ok (some t)
  unfolding after_step
  after_step_more (ok (true, s)) e = inc s t e
  after_step_more (ok (false, s)) e = e
  after_step_more (err x) e = absurd (not_err e)

  unless_reached :
      (b : Bool) (i : Instruction) (s : Simulator)
      → elim b [ true ↦ ok (some s) | false ↦ (do (go_on, s') ← step i s; after_step f go_on s') ]
        ≡ ok (some t)
      → elim b [ true ↦ ok (some s) | false ↦ (do (go_on, s') ← step i s; after_step g go_on s') ]
        ≡ ok (some t)
  unless_reached true i s e = e
  unless_reached false i s e = after_step_more (step i s) e

  after_fetch_more :
      (o : Option Instruction) (s : Simulator)
      → after_fetch f end_address o s ≡ ok (some t)
      → after_fetch g end_address o s ≡ ok (some t)
  unfolding after_fetch
  after_fetch_more none s e = e
  after_fetch_more (some i) s e = unless_reached (reached end_address s.machine_state.pc) i s e

  round_more :
      (w : Result ℕ) (s : Simulator)
      → (do v ← w; after_fetch f end_address (decode v) s) ≡ ok (some t)
      → (do v ← w; after_fetch g end_address (decode v) s) ≡ ok (some t)
  round_more (ok v) s e = after_fetch_more (decode v) s e
  round_more (err x) s e = absurd (not_err e)

run-suc :
    (fuel : ℕ) (end_address : Option ℕ)
    → Includes (run fuel end_address) (run (suc fuel) end_address)
unfolding run
run-suc zero end_address s t e = absurd (not_none e)
run-suc (suc fuel) end_address s t e =
    round_more (run fuel end_address) (run (suc fuel) end_address) (run-suc fuel end_address)
      end_address t (read_word s.machine_state.mem s.machine_state.pc) s e

-- A result that run of the instruction-level simulator reaches on some fuel is its result on any
-- greater fuel.
pub run_more :
    (fuel more : ℕ) (end_address : Option ℕ) (s t : Simulator)
    → run fuel end_address s ≡ ok (some t)
    → run (fuel + more) end_address s ≡ ok (some t)
run_more fuel zero end_address s t e = rw (add-zero fuel) e
run_more fuel (suc more) end_address s t e =
    rw (add-suc fuel more)
      (run-suc (fuel + more) end_address s t (run_more fuel more end_address s t e))
