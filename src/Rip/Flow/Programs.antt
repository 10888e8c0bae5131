-- ===== src/Rip/Flow/Programs.antt =====
-- Both simulators, lib/RIPSimulator/RIPSimulator.cpp and lib/Simulator/Simulator.cpp, from their
-- constructors to the end of `run`, on the words of a straight program.
use rip_sim.Base.{
  ℕ, suc, ◌+◌, ◌*◌, ◌^◌, ◌≤◌, ◌<◌, ◌≡◌, refl, ap, ◌∙◌, sym, arith, ok, Option, none, some, List, [],
  ◌∷◌, u64,
}
use rip_sim.Memory
use rip_sim.Memory.{Memory, read_word}
use rip_sim.Registers
use rip_sim.Csr
use rip_sim.Csr.{machine}
use rip_sim.Pipe
use rip_sim.Stats
use rip_sim.Stats.{Statistics}
use rip_sim.Decoder
use rip_sim.Decoder.Coherent.{decode-Reads}
use rip_sim.Insts.{Instruction}
use rip_sim.Simulator
use rip_sim.Simulator.{Simulator}
use rip_sim.Simulator.Loading.{AllWords, nth, length, load_binary-Loaded}
use rip_sim.Predictor.Dispatch.{BranchPredictor}
use rip_sim.Rip.State.{Rip}
use rip_sim.Rip.Cycle
use rip_sim.Rip.Cycle.{run}
use rip_sim.Rip.Start.{load_binary_eq}
use rip_sim.Rip.Flow.Moves.{IsPlain}
use rip_sim.Rip.Flow.Work.{Quiet}
use rip_sim.Rip.Flow.Run.{Program, rounds, run_loop-SameEnd}

-- The words decode to the instructions, and one word behind them to none.
abbrev pub Decodes : List ℕ → List Instruction → Type 0
Decodes [] is = ⊥
Decodes (w ∷ ws) [] = Decoder.decode w ≡ none
Decodes (w ∷ ws) (i ∷ is) = (Decoder.decode w ≡ some i) × IsPlain i.body × Decodes ws is

Decodes-Program :
    (m : Memory) (ws : List ℕ) (is : List Instruction) (p : ℕ)
    → AllWords ws
    → Decodes ws is
    → p + 4 * length ws < 2 ^ 64
    → ((k w : ℕ) → nth ws k ≡ some w → read_word m (p + 4 * k) ≡ ok w)
    → Program m p is
Decodes-Program m [] is p all d wrap words = absurd d
Decodes-Program m (w ∷ ws) [] p all d wrap words =
    let e0 : p + 4 * 0 ≡ p = omega arith in (w, ap (read_word m) (sym e0) ∙ words 0 w refl, d)
Decodes-Program m (w ∷ ws) (i ∷ is) p (h, all) (d, plain, ds) wrap words =
    let e0 : p + 4 * 0 ≡ p = omega arith in
    let next : u64 (p + 4) ≡ p + 4 = omega arith in
    let rest = Decodes-Program m ws is (p + 4) all ds (omega arith) (λ k x e.
      let e1 : p + 4 + 4 * k ≡ p + 4 * suc k = omega arith in rw e1 (words (suc k) x e)) in
    (w, ap (read_word m) (sym e0) ∙ words 0 w refl, d, (plain, decode-Reads w h d), rw next rest)

-- Both constructors and both runs succeed, with the same registers, PC and memory at the end.
pub record SameRun (ws : List ℕ) (n : ℕ) (bp : Option BranchPredictor) (size : ℕ)
    (stats : Option Statistics) (base : ℕ) (spi : Option ℕ) : Type 0 where
  pub start : Rip
  pub sim_start : Simulator
  pub after : Rip
  pub sim_after : Simulator
  pub made : Cycle.init ws bp size stats base spi ≡ ok start
  pub sim_made : Simulator.init ws size base spi ≡ ok sim_start
  pub returns : run (rounds n) none none start ≡ ok (some after)
  pub sim_returns : Simulator.run (suc n) none sim_start ≡ ok (some sim_after)
  pub regs : after.regs ≡ sim_after.machine_state.regs
  pub pc : after.pc ≡ sim_after.machine_state.pc
  pub mem : after.mem ≡ sim_after.machine_state.mem

-- For words that decode to arithmetic instructions (R-type, arithmetic I-type and U-type, with a
-- destination other than x0, register fields below 32 and immediates in range), and behind them at
-- least one word of which the first decodes to none, all below 2 ^ 32 and all in the DRAM, at a
-- base with which no address wraps at 2 ^ 64, and with no predictor or one without a pending
-- prediction: both constructors succeed; run of the pipelined simulator, without start and end
-- address, returns within five rounds more than there are instructions, and run of the
-- instruction-level simulator within one more; and the registers, PC and memory are the same at
-- the end.
pub run-SameRun :
    (ws : List ℕ) (is : List Instruction) (bp : Option BranchPredictor) (size : ℕ)
    (stats : Option Statistics) (base : ℕ) (spi : Option ℕ)
    → AllWords ws
    → Decodes ws is
    → Quiet bp
    → 4 * length ws ≤ size
    → base + 4 * length ws < 2 ^ 64
    → SameRun ws (length is) bp size stats base spi
unfolding Cycle.init Simulator.init run
run-SameRun ws is bp size stats base spi all d quiet fits wrap =
    let l =
      load_binary-Loaded ws base (Memory.init size base) all (omega arith) (omega arith) wrap in
    let start : Rip = record {
      mem = l.after;
      pc = base;
      csrs = Csr.init;
      mode = machine;
      num_stages = 0;
      ps = Pipe.init;
      regs = Registers.init size base spi;
      bp = bp;
      stats = stats;
      console = [];
    } in
    let sim : Simulator = record {
      machine_state = record {
        pc = base;
        regs = Registers.init size base spi;
        mem = l.after;
        csrs = Csr.init;
        mode = machine;
        console = [];
      };
      stats = Stats.init;
    } in
    let program = Decodes-Program l.after ws is base all d wrap l.words in
    let e =
      run_loop-SameEnd is sim start (λ k. refl, λ k. refl, refl, quiet) (tt, tt, tt, tt, tt) program
        (refl, refl, refl) in
    record {
      start = start;
      sim_start = sim;
      after = e.after;
      sim_after = e.sim_after;
      made = rw (load_binary_eq ws base (Memory.init size base), l.returns) refl;
      sim_made = rw l.returns refl;
      returns = e.returns;
      sim_returns = e.sim_returns;
      regs = e.regs;
      pc = e.pc;
      mem = e.mem;
    }
