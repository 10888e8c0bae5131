-- ===== src/Simulator/Reached.antt =====
-- The states of the loop of `run` in lib/Simulator/Simulator.cpp, and that their values are in the
-- range of their types, also in a run that does not end.
use rip_sim.Base.{ℕ, ◌^◌, ◌<◌, ◌≡◌, ok, Option, some, Bool, List, AllOk, of_ok}
use mathlib.Core.Path.{subst}
use rip_sim.Memory.{read_word}
use rip_sim.Decoder
use rip_sim.Decoder.Ranges.{decode-Ranged}
use rip_sim.Insts.{Instruction}
use rip_sim.Isa.Typed.{IsTyped}
use rip_sim.Simulator.{Simulator, step, init}
use rip_sim.Simulator.Ranges.{Runs, step-Runs, init-Typed}

-- A state, and the one behind the instruction at its PC.
pub data Reached (s : Simulator) : Simulator → Type 0 where
  start : Reached s s
  after :
      {t u : Simulator} {w : ℕ} {i : Instruction} {go_on : Bool}
      → Reached s t
      → read_word t.machine_state.mem t.machine_state.pc ≡ ok w
      → Decoder.decode w ≡ some i
      → step i t ≡ ok (go_on, u)
      → Reached s u

keeps : {s t : Simulator} → IsTyped s.machine_state → Reached s t → IsTyped t.machine_state
keeps h start = h
keeps h (after {t = t} {w = w} {i = i} r read decoded stepped) =
    let (fit, word) = decode-Ranged w decoded in
    of_ok (subst (AllOk Runs) stepped (step-Runs i t fit word (keeps h r)))

-- In every state that the instruction-level simulator reaches, instruction after instruction, from
-- the one that its constructor makes at a base address below 2 ^ 64, whatever words it loads and
-- also through traps, every register and CSR is below 2 ^ 32, every memory cell below 2 ^ 8 and PC
-- below 2 ^ 64.
pub Reached-IsTyped :
    (ws : List ℕ) (size base : ℕ) (spi : Option ℕ) (s t : Simulator)
    → base < 2 ^ 64
    → init ws size base spi ≡ ok s
    → Reached s t
    → IsTyped t.machine_state
Reached-IsTyped ws size base spi s t h made r =
    keeps
      (of_ok (subst (AllOk (λ s'. IsTyped s'.machine_state)) made (init-Typed ws size base spi h)))
      r
