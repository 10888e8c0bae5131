-- ===== src/Rip/Branch.antt =====
-- A branch in EX of lib/RIPSimulator/RIPSimulator.cpp against `exec` of lib/Instructions.cpp.
use rip_sim.Base.{
  ℕ, ◌≡◌, ◌≢◌, refl, sym, ◌∙◌, ok, none, some, Bool, true, false, xor, if◌then◌else◌, arith, ◌<◌,
  ltb, add32, update, u64, sext64, ◌+◌, ap, ap₂, ◌>>=◌,
}
use rip_sim.Insts
use rip_sim.Insts.{Instruction, BMnemo, beq, b_body}
use rip_sim.Registers
use rip_sim.Csr.{Csrs, read, write, bptp, bptn, bpfp, bpfn, inc_bptp, inc_bptn, inc_bpfp, inc_bpfn}
use rip_sim.Isa.{Machine, b_exec}
use rip_sim.Isa
use rip_sim.Pipe.{if_stage, de_stage, ex_stage, set_branch_pc}
use rip_sim.Predictor.Dispatch.{BranchPredictor, learn, stats_update}
use rip_sim.Rip.State.{Rip}
use rip_sim.Rip.Control
use rip_sim.Rip.Control.{branch, flush, count_branch}
use rip_sim.Rip.Exec
use rip_sim.Rip.Exec.{exec}
use rip_sim.Rip.Single.{machine_of}

abbrev pub b_instruction : BMnemo → ℕ → ℕ → ℕ → ℕ → Instruction
b_instruction m rs1 rs2 imm word = record { body = b_body m rs1 rs2 imm; val = word }

-- The machine at the address of the instruction in EX.
abbrev pub at_ex : Rip → Machine
at_ex s = record (machine_of s) { pc = s.ps.pcs ex_stage }

-- The two simulators decide alike.
condition_eq : (m : BMnemo) (a b : ℕ) → Control.condition m a b ≡ Isa.condition m a b
unfolding Control.condition Isa.condition
condition_eq beq a b = refl
condition_eq _ a b = refl

-- The counter of a prediction and an outcome: bptp, bpfp, bpfn and bptn.
abbrev pub counter : Bool → Bool → ℕ
counter true true = bptp
counter true false = bpfp
counter false true = bpfn
counter false false = bptn

counted :
    (pred taken : Bool) (c : Csrs)
    → count_branch pred taken c
      ≡ ok (update c (counter pred taken) (add32 (c (counter pred taken)) 1))
unfolding count_branch inc_bptp inc_bptn inc_bpfp inc_bpfn read write
counted true true c = refl
counted true false c = refl
counted false true c = refl
counted false false c = refl

-- The address behind a branch.
abbrev pub next_pc : Bool → ℕ → ℕ → ℕ
next_pc taken pc imm = if taken then u64 (pc + sext64 imm) else u64 (pc + 4)

-- A branch is resolved in EX: `machine` is what the instruction-level simulator leaves at the
-- address of the branch.
pub record Resolves (i : Instruction) (s : Rip) (bp : BranchPredictor) : Type 0 where
  pub taken : Bool
  pub after : Rip
  pub machine : Machine
  pub returns : exec i s ≡ ok (after, none)
  pub executes : Isa.exec i.body (at_ex s) ≡ ok (machine, none)
  pub decided : machine.pc ≡ next_pc taken (s.ps.pcs ex_stage) s.ps.de_imm_val
  -- A right prediction changes nothing in flight.
  pub right :
      bp.prev_pred ≡ taken
      → (after.ps.branch_pc ≡ s.ps.branch_pc) × (after.ps.invalid_stages ≡ s.ps.invalid_stages)
  -- A wrong one redirects to the PC of the instruction-level simulator and drops IF and DE.
  pub wrong :
      bp.prev_pred ≢ taken
      → (after.ps.branch_pc ≡ some machine.pc)
        × (after.ps.invalid_stages if_stage ≡ true)
        × (after.ps.invalid_stages de_stage ≡ true)
  pub learns :
      after.bp ≡ some (learn taken (s.ps.pcs ex_stage) (stats_update taken bp.prev_pred bp))
  pub counts :
      after.csrs
      ≡ update s.csrs (counter bp.prev_pred taken) (add32 (s.csrs (counter bp.prev_pred taken)) 1)
  pub regs : after.regs ≡ machine.regs

xor-same : (x y : Bool) → x ≡ y → xor x y ≡ false
unfolding xor
xor-same true y h = ground arith
xor-same false y h = ground arith

xor-other : (x y : Bool) → x ≢ y → xor x y ≡ true
unfolding xor
xor-other true true h = absurd (h refl)
xor-other true false h = refl
xor-other false true h = refl
xor-other false false h = absurd (h refl)

abbrev resolved : Bool → Rip → BranchPredictor → Rip
resolved taken s bp =
    let pc = s.ps.pcs ex_stage in
    let k = counter bp.prev_pred taken in
    record s {
      ps =
          if xor bp.prev_pred taken
          then flush (set_branch_pc (next_pc taken pc s.ps.de_imm_val) s.ps)
          else s.ps;
      csrs = update s.csrs k (add32 (s.csrs k) 1);
      bp = some (learn taken pc (stats_update taken bp.prev_pred bp));
    }

branch_predicted :
    (m : BMnemo) (s : Rip) (bp : BranchPredictor)
    → s.bp ≡ some bp
    → branch m s ≡ ok (resolved (Control.condition m s.ps.de_rs1_val s.ps.de_rs2_val) s bp)
unfolding branch
branch_predicted m s bp has =
    let c = counted bp.prev_pred (Control.condition m s.ps.de_rs1_val s.ps.de_rs2_val) s.csrs in
    ground arith

isa_branch :
    (m : BMnemo) (rs1 rs2 imm : ℕ) (s : Machine)
    → rs1 < 32
    → rs2 < 32
    → b_exec m rs1 rs2 imm s
      ≡ ok (
        record s {
          pc = next_pc (Isa.condition m (s.regs rs1) (s.regs rs2)) s.pc (Insts.sign_extend 13 imm);
        },
        none,
      )
unfolding b_exec Registers.read
isa_branch m rs1 rs2 imm s h1 h2 =
    let t1 : ltb rs1 32 ≡ true = ground arith in
    let t2 : ltb rs2 32 ≡ true = ground arith in rw (t1, t2) refl

-- A branch in EX, with its operands and its sign-extended immediate in the latches and a
-- predictor, executes without an exception and leaves the registers of BInstruction::exec of the
-- instruction-level simulator at its address. If the last prediction is the outcome, branch target
-- and invalid marks stay; otherwise the target is the PC that BInstruction::exec leaves, and IF
-- and DE are marked invalid. The predictor learns the outcome at the address of the branch, and of
-- the four CSR counters only that of the prediction and the outcome goes up by one.
pub branch-Resolves :
    (m : BMnemo) (rs1 rs2 imm word : ℕ) (s : Rip) (bp : BranchPredictor)
    → s.bp ≡ some bp
    → rs1 < 32
    → rs2 < 32
    → s.ps.de_rs1_val ≡ s.regs rs1
    → s.ps.de_rs2_val ≡ s.regs rs2
    → s.ps.de_imm_val ≡ Insts.sign_extend 13 imm
    → Resolves (b_instruction m rs1 rs2 imm word) s bp
unfolding exec Isa.exec
branch-Resolves m rs1 rs2 imm word s bp has h1 h2 e1 e2 ei =
    let pc = s.ps.pcs ex_stage in
    let pred = bp.prev_pred in
    let taken = Control.condition m s.ps.de_rs1_val s.ps.de_rs2_val in
    let same : Isa.condition m (s.regs rs1) (s.regs rs2) ≡ taken =
      cc (condition_eq m (s.regs rs1) (s.regs rs2)) in
    let next : ℕ = next_pc taken pc s.ps.de_imm_val in
    let e : next_pc (Isa.condition m (s.regs rs1) (s.regs rs2)) pc (Insts.sign_extend 13 imm)
        ≡ next =
      ap₂ (λ t k. next_pc t pc k) same (sym ei) in
    record {
      taken = taken;
      after = Exec.latch 0 0 (resolved taken s bp);
      machine = record (at_ex s) { pc = next };
      returns = ap (λ r. r >>= λ s'. ok (Exec.latch 0 0 s', none)) (branch_predicted m s bp has);
      executes =
          isa_branch m rs1 rs2 imm (at_ex s) h1 h2
          ∙ ap (λ n. ok (record (at_ex s) { pc = n }, none)) e;
      decided = refl;
      right = λ h. rw (xor-same pred taken h) (refl, refl);
      wrong = λ h. rw (xor-other pred taken h) (refl, refl, refl);
      learns = refl;
      counts = refl;
      regs = refl;
    }
