-- ===== src/Rip/MemoryAccess.antt =====
-- `RIPSimulator::memoryaccess`.
use rip_sim.Base.{
  ℕ, ◌%◌, ◌^◌, u8, sext8, sext16, sext64, ◌==◌, if◌then◌else◌, ◌>>=◌, Result, ok, ◌∷◌, Bool, true,
  false,
}
use rip_sim.Insts.{Instruction, Body, i_body, s_body, lb, lh, lw, lbu, lhu, sb, sh, sw}
use rip_sim.Memory.{read_byte, read_half_word, read_word, write_byte, write_half_word, write_word}
use rip_sim.Csr.{ModeKind, epilogue}
use rip_sim.Rip.State.{Rip}

-- The last three lines: `res` goes to the MA latch.
abbrev pub latch : ℕ → Rip → Rip
latch res s = record s {
  ps = record (s.ps) {
    ma_rd_val = res;
    ma_csr_val = s.ps.ex_csr_val;
    ma_imm_val = s.ps.ex_imm_val;
  };
}

-- The access, at the address `ad` that EX computed. Only lw converts the signed value to an
-- `Address`, which extends its sign.
unfoldable pub access : Body → ℕ → Rip → Result Rip
access (s_body sw rs1 rs2 imm) ad s = do
  m ← write_word s.mem ad s.ps.ex_rs2_val
  ok (latch ad (record s { mem = m }))
access (s_body sh rs1 rs2 imm) ad s = do
  m ← write_half_word s.mem ad (s.ps.ex_rs2_val % 2 ^ 16)
  ok (latch ad (record s { mem = m }))
access (s_body sb rs1 rs2 imm) ad s = do
  m ← write_byte s.mem ad (s.ps.ex_rs2_val % 2 ^ 8)
  ok (latch ad (record s { mem = m }))
access (i_body lw rd rs1 imm) ad s = do v ← read_word s.mem (sext64 ad); ok (latch v s)
access (i_body lh rd rs1 imm) ad s = do v ← read_half_word s.mem ad; ok (latch (sext16 v) s)
access (i_body lbu rd rs1 imm) ad s = do v ← read_byte s.mem ad; ok (latch v s)
access (i_body lhu rd rs1 imm) ad s = do v ← read_half_word s.mem ad; ok (latch v s)
access (i_body lb rd rs1 imm) ad s = do v ← read_byte s.mem ad; ok (latch (sext8 v) s)
access _ ad s = ok (latch ad s)

abbrev pub is_epilogue : ModeKind → Bool
is_epilogue epilogue = true
is_epilogue _ = false

unfoldable pub memoryaccess : Instruction → Rip → Result Rip
unfolding access
memoryaccess inst s =
    let ad = s.ps.ex_rd_val in
    if ad == 0x10000000
    then ok (latch ad (record s { console = u8 ad ∷ s.console }))
    else if is_epilogue s.mode
    then ok (latch ad s)
    else access inst.body ad s
