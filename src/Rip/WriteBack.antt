-- ===== src/Rip/WriteBack.antt =====
-- `RIPSimulator::writeback`. It runs first in a cycle, so that the MA latches still hold the
-- values of the instruction that is now in WB.
use rip_sim.Base.{ℕ, bit_and, if◌then◌else◌, ◌>>=◌, Result, ok, Bool, true, false}
use rip_sim.Insts.{Instruction, Body, s_body, b_body, get_rd}
use rip_sim.Registers
use rip_sim.Csr
use rip_sim.Rip.State.{Rip, is_csr}

-- Instructions without writeback.
abbrev pub has_no_writeback : Body → Bool
has_no_writeback (s_body m rs1 rs2 imm) = true
has_no_writeback (b_body m rs1 rs2 imm) = true
has_no_writeback _ = false

abbrev pub set_wb_imm_val : ℕ → Rip → Rip
set_wb_imm_val v s = record s { ps = record (s.ps) { wb_imm_val = v } }

unfoldable pub writeback : Instruction → Rip → Result Rip
writeback inst s =
    if has_no_writeback inst.body
    then ok (set_wb_imm_val 0 s)
    else if is_csr inst.body
    then (do
      c ← Csr.write s.csrs (bit_and s.ps.ma_imm_val 0xfff) s.ps.ma_csr_val
      rd ← get_rd inst
      r ← Registers.write s.regs rd s.ps.ma_rd_val
      ok (set_wb_imm_val 0 (record s { csrs = c; regs = r })))
    else (do
      rd ← get_rd inst
      r ← Registers.write s.regs rd s.ps.ma_rd_val
      ok (set_wb_imm_val s.ps.ma_rd_val (record s { regs = r })))
