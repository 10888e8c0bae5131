-- ===== src/Encoding/Reads.antt =====
-- What the getters of class Instruction read out of the word that a constructor put together.
use rip_sim.Base.{ℕ, ◌%◌, ◌<◌, ◌≡◌, arith, bit_and_field, ap, ◌∙◌, ok}
use rip_sim.Insts.{
  IMnemo, RMnemo, SMnemo, BMnemo, UMnemo, JMnemo, Body, i_body, r_body, u_body, j_body, s_body,
  b_body, Instruction, new_i, new_r, new_u, new_j, new_s, new_b, get_rd, get_rs1, get_rs2,
  get_i_imm, get_s_imm, get_j_imm, get_b_imm, get_u_imm,
}
use rip_sim.Encoding.Immediates.{s_imm_sum, b_imm_sum, j_imm_sum}
use rip_sim.Encoding.Sums.{
  val-new_i, val-new_r, val-new_s, val-new_b, val-new_u, val-new_j, i_funct3-lt, i_opcode-lt,
  r_funct3-lt, r_funct7-lt, s_funct3-lt, b_funct3-lt, u_opcode-lt, j_opcode-eq,
}

-- Every getter that the class of `b` allows returns the field that `b` holds.
abbrev pub Reads : Instruction → Body → Type 0
Reads i (i_body m rd rs1 imm) = (get_rd i ≡ ok rd) × (get_rs1 i ≡ ok rs1) × (get_i_imm i ≡ ok imm)
Reads i (r_body m rd rs1 rs2) = (get_rd i ≡ ok rd) × (get_rs1 i ≡ ok rs1) × (get_rs2 i ≡ ok rs2)
Reads i (u_body m rd imm) = (get_rd i ≡ ok rd) × (get_u_imm i ≡ ok imm)
Reads i (j_body m rd imm) = (get_rd i ≡ ok rd) × (get_j_imm i ≡ ok imm)
Reads i (s_body m rs1 rs2 imm) =
    (get_rs1 i ≡ ok rs1) × (get_rs2 i ≡ ok rs2) × (get_s_imm i ≡ ok imm)
Reads i (b_body m rs1 rs2 imm) =
    (get_rs1 i ≡ ok rs1) × (get_rs2 i ≡ ok rs2) × (get_b_imm i ≡ ok imm)

pub new_i-Reads :
    (m : IMnemo) (rd rs1 imm : ℕ) → Reads (new_i m rd rs1 imm) (new_i m rd rs1 imm).body
unfolding new_i get_rd get_rs1 get_i_imm
new_i-Reads m rd rs1 imm =
    let f = i_funct3-lt m in
    let o = i_opcode-lt m in
    let e = val-new_i m rd rs1 imm in
    let v = (new_i m rd rs1 imm).val in
    (
      ap ok (omega (arith, bit_and_field 5 7 v)),
      ap ok (omega (arith, bit_and_field 5 15 v)),
      ap ok (omega (arith, bit_and_field 12 20 v)),
    )

pub new_r-Reads :
    (m : RMnemo) (rd rs1 rs2 : ℕ) → Reads (new_r m rd rs1 rs2) (new_r m rd rs1 rs2).body
unfolding new_r get_rd get_rs1 get_rs2
new_r-Reads m rd rs1 rs2 =
    let g = r_funct7-lt m in
    let f = r_funct3-lt m in
    let e = val-new_r m rd rs1 rs2 in
    let v = (new_r m rd rs1 rs2).val in
    (
      ap ok (omega (arith, bit_and_field 5 7 v)),
      ap ok (omega (arith, bit_and_field 5 15 v)),
      ap ok (omega (arith, bit_and_field 5 20 v)),
    )

pub new_u-Reads : (m : UMnemo) (rd imm : ℕ) → Reads (new_u m rd imm) (new_u m rd imm).body
unfolding new_u get_rd get_u_imm
new_u-Reads m rd imm =
    let o = u_opcode-lt m in
    let e = val-new_u m rd imm in
    let v = (new_u m rd imm).val in
    (ap ok (omega (arith, bit_and_field 5 7 v)), ap ok (omega (arith, bit_and_field 20 12 v)))

pub new_s-Reads :
    (m : SMnemo) (rs1 rs2 imm : ℕ) → Reads (new_s m rs1 rs2 imm) (new_s m rs1 rs2 imm).body
unfolding new_s get_rs1 get_rs2 get_s_imm
new_s-Reads m rs1 rs2 imm =
    let f = s_funct3-lt m in
    let e = val-new_s m rs1 rs2 imm in
    let v = (new_s m rs1 rs2 imm).val in
    (
      ap ok (omega (arith, bit_and_field 5 15 v)),
      ap ok (omega (arith, bit_and_field 5 20 v)),
      ap ok (s_imm_sum v ∙ omega arith),
    )

-- The B- and J-type immediates are even: their lowest bit has no place in the word.
pub new_b-Reads :
    (m : BMnemo) (rs1 rs2 imm : ℕ)
    → imm % 2 ≡ 0
    → Reads (new_b m rs1 rs2 imm) (new_b m rs1 rs2 imm).body
unfolding new_b get_rs1 get_rs2 get_b_imm
new_b-Reads m rs1 rs2 imm even =
    let f = b_funct3-lt m in
    let e = val-new_b m rs1 rs2 imm in
    let v = (new_b m rs1 rs2 imm).val in
    (
      ap ok (omega (arith, bit_and_field 5 15 v)),
      ap ok (omega (arith, bit_and_field 5 20 v)),
      ap ok (b_imm_sum v (omega arith) ∙ omega arith),
    )

pub new_j-Reads :
    (m : JMnemo) (rd imm : ℕ) → rd < 32 → imm % 2 ≡ 0 → Reads (new_j m rd imm) (new_j m rd imm).body
unfolding new_j get_rd get_j_imm
new_j-Reads m rd imm h even =
    let o = j_opcode-eq m in
    let e = val-new_j m rd imm h in
    let v = (new_j m rd imm).val in
    (ap ok (omega (arith, bit_and_field 5 7 v)), ap ok (j_imm_sum v (omega arith) ∙ omega arith))
