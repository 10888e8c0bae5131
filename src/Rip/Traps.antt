-- ===== src/Rip/Traps.antt =====
-- `RIPSimulator::handleException` in machine mode: what it leaves in the CSRs and the pipeline.
use rip_sim.Base.{
  ℕ, ◌^◌, ◌<◌, ◌≡◌, ◌≢◌, refl, arith, ok, err, Result, bit_and, sext64, update, u32, sar, Bool,
  true, false, some, ◌∙◌, bit_and_ones, ◌==◌,
}
use rip_sim.Csr.{
  read, write, Csrs, mstatus, mepc, mcause, mtval, mtvec, machine, set_mpie, set_mie, set_mpp,
}
use rip_sim.Csr.Fields.{field, set_mie-Sets, set_mpie-Sets, set_mpp-Sets}
use rip_sim.Exceptions.{
  Exception, code, trap_val, breakpoint, r0, r1, instruction_page_fault, load_page_fault,
  store_amo_page_fault,
}
use rip_sim.Insts.{Instruction}
use rip_sim.Pipe.{if_stage, de_stage, ex_stage, ma_stage}
use rip_sim.Rip.State.{Rip, writes_csr}
use rip_sim.Rip.Control.{flush}
use rip_sim.Rip.Trap.{handle_exception, enter_trap, trap_by_kind, trap_by_mode, forwarded, ex_val}

-- The exceptions that stop the simulator, change the mode or are unimplemented are no traps.
abbrev pub IsTrap : Exception → Type 0
IsTrap breakpoint = ⊥
IsTrap r0 = ⊥
IsTrap r1 = ⊥
IsTrap instruction_page_fault = ⊥
IsTrap load_page_fault = ⊥
IsTrap store_amo_page_fault = ⊥
IsTrap _ = Unit

-- The three settings of MSTATUS, one after the other.
record Entered (c : Csrs) : Type 0 where
  first : Csrs
  second : Csrs
  final : Csrs
  sets_mpie : set_mpie c (bit_and (sar 32 (c mstatus) 3) 1 == 1) ≡ ok first
  sets_mie : set_mie first false ≡ ok second
  sets_mpp : set_mpp second machine ≡ ok final
  mpie : field 1 7 (final mstatus) ≡ field 1 3 (c mstatus)
  mie : field 1 3 (final mstatus) ≡ 0
  mpp : field 2 11 (final mstatus) ≡ 3
  frame : (j : ℕ) → j ≢ mstatus → final j ≡ c j

enter : (c : Csrs) → c mstatus < 2 ^ 32 → Entered c
enter c fits =
    let s1 = set_mpie-Sets c fits (bit_and (sar 32 (c mstatus) 3) 1 == 1) in
    let s2 = set_mie-Sets s1.after s1.fits false in
    let s3 = set_mpp-Sets s2.after s2.fits machine (ground arith) in
    record {
      first = s1.after;
      second = s2.after;
      final = s3.after;
      sets_mpie = s1.returns;
      sets_mie = s2.returns;
      sets_mpp = s3.returns;
      mpie = ground (arith, s3.keeps, s2.keeps, s1.is_set, bit_and_ones 1 (sar 32 (c mstatus) 3));
      mie = omega (arith, s3.keeps, s2.is_set);
      mpp = s3.is_set;
      frame = λ j ne. s3.frame j ne ∙ s2.frame j ne ∙ s1.frame j ne;
    }

-- What a trap leaves: PC at the handler, the address of the instruction in EX, the cause, the
-- interrupt bits saved and cleared, and nothing in IF and DE for the next cycle.
pub record Trapped (e : Exception) (s : Rip) (r : Result (Bool × Rip)) : Type 0 where
  pub after : Rip
  pub returns : r ≡ ok (true, after)
  pub address : after.pc ≡ sext64 (bit_and (s.csrs mtvec) 0xfffffffe)
  pub resume : after.csrs mepc ≡ bit_and (u32 (s.ps.pcs ex_stage)) 0xfffffffe
  pub cause : after.csrs mcause ≡ code e
  pub mpie : field 1 7 (after.csrs mstatus) ≡ field 1 3 (s.csrs mstatus)
  pub mie : field 1 3 (after.csrs mstatus) ≡ 0
  pub mpp : field 2 11 (after.csrs mstatus) ≡ 3
  pub no_if : after.ps.invalid_stages if_stage ≡ true
  pub no_de : after.ps.invalid_stages de_stage ≡ true

by_kind : (e : Exception) (s : Rip) → IsTrap e → trap_by_kind e s ≡ trap_by_mode s.mode e s
unfolding trap_by_kind
by_kind breakpoint s h = absurd h
by_kind r0 s h = absurd h
by_kind r1 s h = absurd h
by_kind _ s h = refl

abbrev value_of : Result ℕ → ℕ
value_of (ok n) = n
value_of (err e) = 0

has_trap_val :
    (e : Exception) (pc v : ℕ) → IsTrap e → trap_val e pc v ≡ ok (value_of (trap_val e pc v))
has_trap_val breakpoint pc v h = absurd h
has_trap_val r0 pc v h = absurd h
has_trap_val r1 pc v h = absurd h
has_trap_val instruction_page_fault pc v h = absurd h
has_trap_val load_page_fault pc v h = absurd h
has_trap_val store_amo_page_fault pc v h = absurd h
has_trap_val _ pc v h = refl

-- In machine mode, for an exception other than breakpoint, ext, extx and the page faults, with an
-- instruction in EX and no CSR instruction in EX or MA that writes MTVEC, and MSTATUS a 32-bit
-- value: handleException goes on, puts PC at MTVEC, MEPC at the address of EX (both with bit 0
-- cleared), MCAUSE at the cause; MPIE is the old MIE, MIE is 0, MPP is machine mode; IF and DE are
-- marked invalid.
pub handle_exception-Trapped :
    (e : Exception) (i : Instruction) (s : Rip)
    → IsTrap e
    → s.mode ≡ machine
    → s.ps.insts ex_stage ≡ some i
    → writes_csr (s.ps.insts ex_stage) mtvec ≡ ok false
    → writes_csr (s.ps.insts ma_stage) mtvec ≡ ok false
    → s.csrs mstatus < 2 ^ 32
    → Trapped e s (handle_exception e s)
unfolding handle_exception trap_by_mode enter_trap forwarded ex_val read write
handle_exception-Trapped e i s trap m held in_ex in_ma fits =
    let pc = u32 (s.ps.pcs ex_stage) in
    let t = has_trap_val e pc i.val trap in
    let tval = value_of (trap_val e pc i.val) in
    let c =
      update (update (update s.csrs mepc (bit_and pc 0xfffffffe)) mcause (code e)) mtval tval in
    let done = enter c fits in
    let flushed : Rip = record s { ps = flush s.ps } in
    record {
      after = record flushed { pc = sext64 (bit_and (s.csrs mtvec) 0xfffffffe); csrs = done.final };
      returns =
          by_kind e flushed trap
          ∙ rw (m, in_ex, in_ma, held, t, done.sets_mpie, done.sets_mie, done.sets_mpp) refl;
      address = refl;
      resume = done.frame mepc (omega arith);
      cause = done.frame mcause (omega arith);
      mpie = done.mpie;
      mie = done.mie;
      mpp = done.mpp;
      no_if = refl;
      no_de = refl;
    }
