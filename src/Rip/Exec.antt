-- ===== src/Rip/Exec.antt =====
-- `RIPSimulator::exec`. An exception returns before the EX latches are set.
use rip_sim.Base.{ℕ, ◌+◌, u32, add32, ◌>>=◌, Result, ok, err, assertion, Option, none, some}
use rip_sim.Insts.{
  Instruction, Body, IMnemo, i_body, r_body, u_body, j_body, s_body, b_body, jalr, lb, lh, lw, lbu,
  lhu, ecall, ebreak, mret, ext, extx,
}
use rip_sim.Csr.{ModeKind, user, supervisor, machine}
use rip_sim.Exceptions.{
  Exception, illegal_instruction, breakpoint, environment_call_from_u_mode,
  environment_call_from_s_mode, environment_call_from_m_mode, r0, r1,
}
use rip_sim.Pipe.{ex_stage}
use rip_sim.Rip.State.{Rip}
use rip_sim.Rip.Alu.{r_value, i_value, csr_value, u_value}
use rip_sim.Rip.Control.{jalr_jump, jal_jump, load_stall, branch, mret as mret_exec}

-- `PS.setEXRdVal(RdVal); PS.setEXCSRVal(CV); PS.setEXImmVal(Imm);`
abbrev pub latch : ℕ → ℕ → Rip → Rip
latch rd cv s = record s {
  ps = record (s.ps) { ex_rd_val = rd; ex_csr_val = cv; ex_imm_val = s.ps.de_imm_val };
}

abbrev finish : ℕ → ℕ → Rip → Result (Rip × Option Exception)
finish rd cv s = ok (latch rd cv s, none)

-- The value for rd of jalr and jal.
abbrev link : Rip → ℕ
link s = u32 (s.ps.pcs ex_stage + 4)

ecall_exception : ModeKind → Exception
ecall_exception user = environment_call_from_u_mode
ecall_exception supervisor = environment_call_from_s_mode
ecall_exception machine = environment_call_from_m_mode
ecall_exception _ = illegal_instruction

load : Instruction → Rip → Result (Rip × Option Exception)
load inst s = do s' ← load_stall inst s; finish (add32 s.ps.de_rs1_val s.ps.de_imm_val) 0 s'

-- uret and sret end in the last branch, "unimplemented!".
special : IMnemo → Instruction → Rip → Result (Rip × Option Exception)
unfolding ecall_exception load
special jalr inst s = finish (link s) 0 (jalr_jump s)
special lb inst s = load inst s
special lh inst s = load inst s
special lw inst s = load inst s
special lbu inst s = load inst s
special lhu inst s = load inst s
special ecall inst s = ok (s, some (ecall_exception s.mode))
special ebreak inst s = ok (s, some breakpoint)
special mret inst s = do
  (s', e) ← mret_exec s
  elim e [ some e ↦ ok (s', some e) | none ↦ finish 0 0 s' ]
special ext inst s = ok (s, some r0)
special extx inst s = ok (s, some r1)
special _ inst s = err assertion

-- The branches before those of `special`, from the result of `i_value`.
unfoldable pub after_value :
    Option (Result ℕ) → IMnemo → Instruction → Rip → Result (Rip × Option Exception)
unfolding special
after_value (some r) m inst s = do v ← r; finish v 0 s
after_value none m inst s = elim (csr_value m s.ps.de_csr_val s.ps.de_rs1_val) [
  | some cv ↦ finish s.ps.de_csr_val cv s
  | none ↦ special m inst s
]

exec_i : IMnemo → Instruction → Rip → Result (Rip × Option Exception)
unfolding after_value
exec_i m inst s = after_value (i_value m s.ps.de_rs1_val s.ps.de_imm_val) m inst s

exec_body : Body → Instruction → Rip → Result (Rip × Option Exception)
unfolding exec_i
exec_body (i_body m rd rs1 imm) inst s = exec_i m inst s
exec_body (r_body m rd rs1 rs2) inst s = finish (r_value m s.ps.de_rs1_val s.ps.de_rs2_val) 0 s
exec_body (j_body m rd imm) inst s = finish (link s) 0 (jal_jump s)
exec_body (b_body m rs1 rs2 imm) inst s = do s' ← branch m s; finish 0 0 s'
exec_body (s_body m rs1 rs2 imm) inst s =
    finish (add32 s.ps.de_rs1_val s.ps.de_imm_val) 0
      (record s { ps = record (s.ps) { ex_rs2_val = s.ps.de_rs2_val } })
exec_body (u_body m rd imm) inst s = finish (u_value m (s.ps.pcs ex_stage) s.ps.de_imm_val) 0 s

unfoldable pub exec : Instruction → Rip → Result (Rip × Option Exception)
unfolding exec_body
exec inst s = exec_body inst.body inst s
