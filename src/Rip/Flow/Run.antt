-- ===== src/Rip/Flow/Run.antt =====
-- `run` of lib/RIPSimulator/RIPSimulator.cpp against `run` of lib/Simulator/Simulator.cpp, on a
-- straight program.
use rip_sim.Base.{ℕ, suc, ◌+◌, ◌≡◌, refl, ap, ◌∙◌, sym, ok, none, some, true, List, [], ◌∷◌, u64}
use rip_sim.Memory.{Memory, read_word}
use rip_sim.Decoder
use rip_sim.Insts.{Instruction}
use rip_sim.Isa
use rip_sim.Isa.{Machine}
use rip_sim.Simulator
use rip_sim.Simulator.Loading.{length}
use rip_sim.Simulator.{Simulator, step}
use rip_sim.Stats.{count_inst}
use rip_sim.Rip.State.{Rip}
use rip_sim.Rip.Cycle.{run_loop}
use rip_sim.Rip.Flow.Moves.{view, Plain}
use rip_sim.Rip.Flow.Work.{Free, inc_cycle-ok}
use rip_sim.Rip.Flow.Rounds.{run_loop-running}
use rip_sim.Rip.Flow.Retire.{Straight}
use rip_sim.Rip.Flow.Follows.{Tracks, round-Follows}
use rip_sim.Rip.Flow.Drain.{AtEnd, run_loop-Drained}

-- The words from `pc` on decode to the instructions, which are of a straight program, and the word
-- behind them to none.
abbrev pub Program : Memory → ℕ → List Instruction → Type 0
Program mem pc [] = AtEnd mem pc
Program mem pc (i ∷ is) =
    (w : ℕ) × (read_word mem pc ≡ ok w)
    × (Decoder.decode w ≡ some i)
    × Plain i
    × Program mem (u64 (pc + 4)) is

-- The instruction-level simulator goes on behind an instruction without an exception.
record Stepped (i : Instruction) (s : Simulator) (m : Machine) : Type 0 where
  after : Simulator
  returns : step i s ≡ ok (true, after)
  pc : after.machine_state.pc ≡ m.pc
  regs : after.machine_state.regs ≡ m.regs
  mem : after.machine_state.mem ≡ m.mem

stepped :
    (i : Instruction) (s : Simulator) (m : Machine)
    → Isa.exec i.body s.machine_state ≡ ok (m, none)
    → Stepped i s m
unfolding step
stepped i s m e =
    let (c, inc) = inc_cycle-ok m.csrs in
    record {
      after = record { machine_state = record m { csrs = c }; stats = count_inst i.body s.stats };
      returns = rw (e, inc) refl;
      pc = refl;
      regs = refl;
      mem = refl;
    }

-- A round of its loop, and the end.
run-next :
    (k w : ℕ) (i : Instruction) (s t : Simulator)
    → read_word s.machine_state.mem s.machine_state.pc ≡ ok w
    → Decoder.decode w ≡ some i
    → step i s ≡ ok (true, t)
    → Simulator.run (suc k) none s ≡ Simulator.run k none t
unfolding Simulator.run
run-next k w i s t r d e = rw (r, d, e) refl

run-end :
    (k : ℕ) (s : Simulator)
    → AtEnd s.machine_state.mem s.machine_state.pc
    → Simulator.run (suc k) none s ≡ ok (some s)
unfolding Simulator.run
run-end k s (w, r, d) = rw (r, d) refl

-- The rounds of the pipeline for `n` instructions: the last finds it empty.
abbrev pub rounds : ℕ → ℕ
rounds n = suc (suc (suc (suc (suc n))))

-- Both runs end, with the same registers, PC and memory.
pub record SameEnd (n : ℕ) (sim : Simulator) (s : Rip) : Type 0 where
  pub after : Rip
  pub sim_after : Simulator
  pub returns : run_loop (rounds n) none s ≡ ok (some after)
  pub sim_returns : Simulator.run (suc n) none sim ≡ ok (some sim_after)
  pub regs : after.regs ≡ sim_after.machine_state.regs
  pub pc : after.pc ≡ sim_after.machine_state.pc
  pub mem : after.mem ≡ sim_after.machine_state.mem

word_at :
    {m m' : Memory} {p p' w : ℕ} → m ≡ m' → p ≡ p' → read_word m' p' ≡ ok w → read_word m p ≡ ok w
word_at {m' = m'} {p = p} em ep r = ap (λ m. read_word m p) em ∙ ap (read_word m') ep ∙ r

pub run_loop-SameEnd :
    (is : List Instruction) (sim : Simulator) (s : Rip)
    → Free s
    → Straight (view s)
    → Program s.mem s.pc is
    → Tracks sim.machine_state s
    → SameEnd (length is) sim s
run_loop-SameEnd [] sim s free straight (w, r, d) (pc, regs, mem) =
    let e = run_loop-Drained 4 s free straight tt (w, r, d) in
    record {
      after = e.after;
      sim_after = sim;
      returns = e.returns;
      sim_returns = run-end 0 sim (w, word_at mem pc r, d);
      regs = e.regs ∙ sym regs;
      pc = e.pc ∙ sym pc;
      mem = e.mem ∙ sym mem;
    }
run_loop-SameEnd (i ∷ is) sim s free straight (w, r, d, plain, program) tracks =
    let f = round-Follows i w sim.machine_state s free straight plain r d tracks in
    let st = stepped i sim f.machine f.executes in
    let program' : Program f.after.mem f.after.pc is = rw (f.mem, f.pc) program in
    let rest =
      run_loop-SameEnd is st.after f.after f.free f.straight program'
        (st.pc ∙ f.tracks.0, st.regs ∙ f.tracks.1, st.mem ∙ f.tracks.2) in
    record {
      after = rest.after;
      sim_after = rest.sim_after;
      returns = run_loop-running (rounds (length is)) s f.after f.returns f.busy ∙ rest.returns;
      sim_returns =
          run-next (suc (length is)) w i sim st.after (word_at tracks.2 tracks.0 r) d st.returns
          ∙ rest.sim_returns;
      regs = rest.regs;
      pc = rest.pc;
      mem = rest.mem;
    }
