-- ===== src/Rip/Trap.antt =====
-- `RIPSimulator::handleException`. `false` stops the simulator.
use rip_sim.Base.{
  ℕ, bit_and, u32, sext64, sar, ◌==◌, Bool, true, false, if◌then◌else◌, ◌>>=◌, Result, ok, err,
  assertion, null_fetch, Option, none, some,
}
use rip_sim.Insts.{Instruction}
use rip_sim.Csr
use rip_sim.Csr.{ModeKind, machine, epilogue, mstatus, mtvec, mepc, mcause, mtval}
use rip_sim.Exceptions.{Exception, breakpoint, r0, r1, code, trap_val}
use rip_sim.Pipe.{ex_stage, ma_stage}
use rip_sim.Rip.State.{Rip, writes_csr}
use rip_sim.Rip.Control.{flush}

-- The value of a CSR that a CSR instruction in EX or MA is about to write, or the one it has.
unfoldable pub forwarded : ℕ → Rip → Result ℕ
forwarded ca s = do
  v ← Csr.read s.csrs ca
  in_ex ← writes_csr (s.ps.insts ex_stage) ca
  in_ma ← writes_csr (s.ps.insts ma_stage) ca
  ok (if in_ex then s.ps.ex_csr_val else if in_ma then s.ps.ma_csr_val else v)

-- `PS[STAGES::EX]->getVal()`
unfoldable pub ex_val : Option Instruction → Result ℕ
ex_val none = err null_fetch
ex_val (some i) = ok i.val

-- The trap in machine mode. The forwarded value of MSTATUS is overwritten by the stored one
-- before it is used.
unfoldable pub enter_trap : Exception → Rip → Result Rip
unfolding forwarded ex_val
enter_trap e s = do
  let exception_pc = u32 (s.ps.pcs ex_stage)
  vec ← forwarded mtvec s
  c ← Csr.write s.csrs mepc (bit_and exception_pc 0xfffffffe)
  c ← Csr.write c mcause (code e)
  inst_val ← ex_val (s.ps.insts ex_stage)
  tval ← trap_val e exception_pc inst_val
  c ← Csr.write c mtval tval
  v ← Csr.read c mstatus
  c ← Csr.set_mpie c (bit_and (sar 32 v 3) 1 == 1)
  c ← Csr.set_mie c false
  c ← Csr.set_mpp c s.mode
  ok (record s { pc = sext64 (bit_and vec 0xfffffffe); csrs = c })

unfoldable pub trap_by_mode : ModeKind → Exception → Rip → Result (Bool × Rip)
unfolding enter_trap
trap_by_mode machine e s = do s' ← enter_trap e s; ok (true, s')
trap_by_mode _ e s = err assertion

unfoldable pub trap_by_kind : Exception → Rip → Result (Bool × Rip)
unfolding trap_by_mode
trap_by_kind breakpoint s = ok (false, s)
trap_by_kind r0 s = ok (false, s)
trap_by_kind r1 s = ok (true, record s { mode = epilogue })
trap_by_kind e s = trap_by_mode s.mode e s

unfoldable pub handle_exception : Exception → Rip → Result (Bool × Rip)
unfolding trap_by_kind
handle_exception e s = trap_by_kind e (record s { ps = flush s.ps })
