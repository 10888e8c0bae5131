-- ===== src/Simulator/Traps.antt =====
-- The trap of lib/Simulator/Simulator.cpp: what it leaves in MSTATUS.
use rip_sim.Base.{
  ℕ, ◌^◌, ◌+◌, ◌*◌, ◌%◌, ◌<◌, ◌≡◌, refl, arith, update, u32, sar, ◌<<<◌, ok, Result, bit_and,
  bit_or, bit_and_hole, bit_or_fill, sext64,
}
use rip_sim.Csr.{read, write, mstatus, mepc, mcause, mtval, mtvec, machine}
use rip_sim.Csr.Fields.{field, others}
use rip_sim.Exceptions.{Exception, code, trap_val}
use rip_sim.Isa.{Machine}
use rip_sim.Simulator.{enter_trap}

-- What the trap leaves: the address, the cause, and MPP; MIE and MPIE are as before.
pub record Trapped (e : Exception) (s : Machine) (r : Result Machine) : Type 0 where
  pub after : Machine
  pub returns : r ≡ ok after
  pub address : after.pc ≡ sext64 (bit_and (s.csrs mtvec) 0xfffffffe)
  pub cause : after.csrs mcause ≡ code e
  pub mpp : field 2 11 (after.csrs mstatus) ≡ 3
  pub keeps : others 2 11 (after.csrs mstatus) ≡ others 2 11 (s.csrs mstatus)

-- In machine mode, with MSTATUS a 32-bit value and a trap value for the exception, the trap of the
-- instruction-level simulator succeeds, puts PC at MTVEC with bit 0 cleared and MCAUSE at the
-- cause, sets MPP to machine mode, and leaves all other bits of MSTATUS, MIE and MPIE included, as
-- they were.
pub enter_trap-Trapped :
    (e : Exception) (inst_val tval : ℕ) (s : Machine)
    → s.mode ≡ machine
    → s.csrs mstatus < 2 ^ 32
    → trap_val e (s.pc % 2 ^ 32) inst_val ≡ ok tval
    → Trapped e s (enter_trap e inst_val s)
unfolding enter_trap read write
enter_trap-Trapped e inst_val tval s m fits t =
    let v = s.csrs mstatus in
    let c =
      update (update (update s.csrs mepc (bit_and (u32 s.pc) 0xfffffffe)) mcause (code e)) mtval
        tval in
    let mie = bit_and (sar 32 v 3) 1 in
    let c1 = update c mstatus (bit_or (bit_and v 0xffffff7f) (mie <<< 7)) in
    let c2 = update c1 mstatus (bit_and v 0xfffffff7) in
    let filled : bit_or (bit_and v 0xffffe7ff) (3 <<< 11) ≡ others 2 11 v + 3 * 2 ^ 11 =
      ground (arith, bit_and_hole 19 2 11 v, bit_or_fill 2 11 (others 2 11 v) 3) in
    record {
      after = record s {
        pc = sext64 (bit_and (s.csrs mtvec) 0xfffffffe);
        csrs = update c2 mstatus (bit_or (bit_and v 0xffffe7ff) (3 <<< 11));
      };
      returns = rw (t, m) refl;
      address = refl;
      cause = refl;
      mpp = omega (arith, filled);
      keeps = omega (arith, filled);
    }
