-- ===== src/Rip/Start.antt =====
-- The constructor of lib/RIPSimulator/RIPSimulator.cpp against that of lib/Simulator/Simulator.cpp.
use rip_sim.Base.{ℕ, ◌+◌, ◌≡◌, refl, ap, u64, List, [], ◌∷◌, Option, Result, ok, err, ◌>>=◌}
use rip_sim.Memory
use rip_sim.Memory.{Memory, write_word}
use rip_sim.Predictor.Dispatch.{BranchPredictor}
use rip_sim.Stats.{Statistics}
use rip_sim.Simulator
use rip_sim.Rip.State.{Rip}
use rip_sim.Rip.Cycle
use rip_sim.Rip.Single.{machine_of}

after_write :
    (r : Result Memory) (f g : Memory → Result Memory)
    → ((m : Memory) → f m ≡ g m)
    → (r >>= f) ≡ (r >>= g)
after_write (ok m) f g h = h m
after_write (err e) f g h = refl

pub load_binary_eq :
    (ws : List ℕ) (p : ℕ) (m : Memory) → Cycle.load_binary ws p m ≡ Simulator.load_binary ws p m
unfolding Cycle.load_binary Simulator.load_binary
load_binary_eq [] p m = refl
load_binary_eq (w ∷ ws) p m =
    after_write (write_word m p w) _ _ (λ n. load_binary_eq ws (u64 (p + 4)) n)

-- What the constructors make of the loaded memory.
made :
    (r : Result Memory) (f : Memory → Rip) (g : Memory → Simulator.Simulator)
    → ((m : Memory) → machine_of (f m) ≡ (g m).machine_state)
    → (do s ← (do m ← r; ok (f m)); ok (machine_of s))
      ≡ (do s ← (do m ← r; ok (g m)); ok s.machine_state)
made (ok m) f g h = ap ok (h m)
made (err e) f g h = refl

-- With any predictor and statistics, the constructor of the pipelined simulator makes the machine
-- that the constructor of the instruction-level simulator makes, or both end in the same fault.
pub init-init :
    (ws : List ℕ) (bp : Option BranchPredictor) (size : ℕ) (stats : Option Statistics) (base : ℕ)
    (spi : Option ℕ)
    → (do s ← Cycle.init ws bp size stats base spi; ok (machine_of s))
      ≡ (do s ← Simulator.init ws size base spi; ok s.machine_state)
unfolding Cycle.init Simulator.init
init-init ws bp size stats base spi =
    rw (load_binary_eq ws base (Memory.init size base))
      (made (Simulator.load_binary ws base (Memory.init size base)) _ _ (λ m. refl))
