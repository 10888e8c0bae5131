-- ===== src/Rip/Decode.antt =====
-- `RIPSimulator::decode` and the three forwarding functions before it.
use rip_sim.Base.{
  ℕ, ◌+◌, u64, sext64, ◌==◌, Bool, true, false, if◌then◌else◌, ◌>>=◌, Result, ok, Option, none,
  some,
}
use rip_sim.Insts.{
  Instruction, Body, i_body, r_body, u_body, j_body, s_body, b_body, csrrwi, csrrsi, csrrci, has_rd,
  has_rs1, has_rs2, get_rd, get_rs1, get_rs2, get_i_imm, get_s_imm, get_j_imm, get_b_imm, get_u_imm,
}
use rip_sim.Registers
use rip_sim.Csr
use rip_sim.Pipe.{PipelineStates, if_stage, de_stage, ex_stage, ma_stage, set_invalid}
use rip_sim.Predictor.Dispatch.{predict_kind, set_prev_pred, set_branch_pred_pc}
use rip_sim.Rip.State.{Rip, sign_extend, is_csr, writes_csr}

-- `PS[...] && PS[...]->hasRd() && r == PS[...]->getRd()`
unfoldable pub writes_rd : Option Instruction → ℕ → Result Bool
writes_rd none r = ok false
writes_rd (some i) r = elim (has_rd i.body) [
  | true ↦ (do rd ← get_rd i; ok (r == rd))
  | false ↦ ok false
]

-- `forwardRs1OnDE` and `forwardRs2OnDE` for the register `r`: the value that is forwarded, from EX
-- before MA, or `none` where the source returns false.
unfoldable pub forward : PipelineStates → ℕ → Result (Option ℕ)
unfolding writes_rd
forward ps r = do
  in_ex ← writes_rd (ps.insts ex_stage) r
  in_ma ← writes_rd (ps.insts ma_stage) r
  ok (if in_ex then some ps.ex_rd_val else if in_ma then some ps.ma_rd_val else none)

-- `forwardCSROnDE` for the CSR `ca` of a CSR instruction.
unfoldable pub forward_csr : PipelineStates → ℕ → Result (Option ℕ)
unfolding writes_csr
forward_csr ps ca = do
  in_ex ← writes_csr (ps.insts ex_stage) ca
  in_ma ← writes_csr (ps.insts ma_stage) ca
  ok (if in_ex then some ps.ex_csr_val else if in_ma then some ps.ma_csr_val else none)

-- A register operand: forwarded, or read from the register file.
unfoldable pub operand : Rip → ℕ → Result ℕ
unfolding forward
operand s r = do f ← forward s.ps r; elim f [ some v ↦ ok v | none ↦ Registers.read s.regs r ]

csr_operand : Rip → ℕ → Result ℕ
unfolding forward_csr
csr_operand s ca = do f ← forward_csr s.ps ca; elim f [ some v ↦ ok v | none ↦ Csr.read s.csrs ca ]

-- The CSR instructions whose rs1 is an immediate.
abbrev pub is_csr_immediate : Body → Bool
is_csr_immediate (i_body csrrwi rd rs1 imm) = true
is_csr_immediate (i_body csrrsi rd rs1 imm) = true
is_csr_immediate (i_body csrrci rd rs1 imm) = true
is_csr_immediate _ = false

set_rs1 : Instruction → Rip → Result Rip
set_rs1 inst s =
    if is_csr_immediate inst.body
    then (do r ← get_rs1 inst; ok (record s { ps = record (s.ps) { de_rs1_val = r } }))
    else if has_rs1 inst.body
    then (do
      r ← get_rs1 inst
      v ← operand s r
      ok (record s { ps = record (s.ps) { de_rs1_val = v } }))
    else ok s

set_csr : Instruction → Rip → Result Rip
unfolding csr_operand
set_csr inst s =
    if is_csr inst.body
    then (do
      ca ← get_i_imm inst
      v ← csr_operand s ca
      ok (record s { ps = record (s.ps) { de_csr_val = v } }))
    else ok s

set_rs2 : Instruction → Rip → Result Rip
set_rs2 inst s =
    if has_rs2 inst.body
    then (do
      r ← get_rs2 inst
      v ← operand s r
      ok (record s { ps = record (s.ps) { de_rs2_val = v } }))
    else ok s

-- The prediction for a branch in DE: the instruction in IF is dropped if it is taken.
unfoldable pub predict : ℕ → Rip → Rip
predict imm s = elim s.bp [
  | none ↦ s
  | some bp ↦
      let pc = s.ps.pcs de_stage in
      let (pred, kind) = predict_kind pc bp.kind in
      let bp' = set_prev_pred pred (record bp { kind = kind }) in
      if pred
      then record s {
        bp = some (set_branch_pred_pc (u64 (pc + sext64 imm)) bp');
        ps = set_invalid if_stage s.ps;
      }
      else record s { bp = some bp' }
]

abbrev set_imm : ℕ → Rip → Rip
set_imm imm s = record s { ps = record (s.ps) { de_imm_val = imm } }

-- The immediate, by class; for a branch the predictor runs before it is latched.
decode_imm : Body → Instruction → Rip → Result Rip
decode_imm (i_body m rd rs1 imm) inst s = do v ← get_i_imm inst; ok (set_imm (sign_extend v 12) s)
decode_imm (s_body m rs1 rs2 imm) inst s = do v ← get_s_imm inst; ok (set_imm (sign_extend v 12) s)
decode_imm (j_body m rd imm) inst s = do v ← get_j_imm inst; ok (set_imm (sign_extend v 20) s)
decode_imm (b_body m rs1 rs2 imm) inst s = do
  v ← get_b_imm inst
  ok (set_imm (sign_extend v 13) (predict (sign_extend v 13) s))
decode_imm (u_body m rd imm) inst s = do v ← get_u_imm inst; ok (set_imm (sign_extend v 20) s)
decode_imm (r_body m rd rs1 rs2) inst s = ok (set_imm 0 s)

unfoldable pub decode : Instruction → Rip → Result Rip
unfolding set_rs1 set_csr set_rs2 decode_imm
decode inst s = do
  s ← set_rs1 inst s
  s ← set_csr inst s
  s ← set_rs2 inst s
  decode_imm inst.body inst s
