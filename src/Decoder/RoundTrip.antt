-- ===== src/Decoder/RoundTrip.antt =====
-- Decoding and building the word again, and the other way round.
use rip_sim.Base.{
  ℕ, ◌/◌, ◌^◌, ◌%◌, ◌<◌, ◌≡◌, ◌≢◌, arith, some, bit_and_field, ◌>>>◌, bit_and_ones, bit_and, sym,
}
use rip_sim.Insts.{IMnemo, Instruction, new_i, jalr, srli, i_opcode, i_funct3}
use rip_sim.Encoding.Immediates.{s_imm_sum, b_imm_sum, j_imm_sum}
use rip_sim.Encoding.Sums.{val-new_i, val-new_r, val-new_s, val-new_b, val-new_u, val-new_j}
use rip_sim.Decoder.{
  decode, opcode, rd, rs1, rs2, funct3, funct7, store_offset, branch_offset, jump_offset,
}
use rip_sim.Decoder.Classes.{decode-Form}
use rip_sim.Decoder.Fields.{
  Form, plain, jump_reg, shift_logical, shift_arithmetic, nop, extended, op, store, branch, upper,
  jump,
}

-- Words that the decoder maps to an object of another word: fences, the extended instructions,
-- srai (its bit 30 is dropped), and jalr with a funct3 other than 0.
pub record IsCanonical (w : ℕ) : Type 0 where
  pub not_extended : opcode w ≢ 0b0001011
  pub not_fence : opcode w ≢ 0b0001111
  pub not_srai : opcode w ≡ 0b0010011 → funct3 w ≡ 0b101 → funct7 w ≡ 0
  pub jalr_funct3 : opcode w ≡ 0b1100111 → funct3 w ≡ 0

module _ (w : ℕ) (fits : w < 2 ^ 32) where
  fixed_fields :
      (opcode w ≡ w % 2 ^ 7)
      × (rd w ≡ w / 2 ^ 7 % 2 ^ 5)
      × (funct3 w ≡ w / 2 ^ 12 % 2 ^ 3)
      × (rs1 w ≡ w / 2 ^ 15 % 2 ^ 5)
      × (rs2 w ≡ w / 2 ^ 20 % 2 ^ 5)
      × (funct7 w ≡ w / 2 ^ 25)
  fixed_fields = (
    bit_and_ones 7 w,
    omega (arith, bit_and_field 5 7 w),
    omega (arith, bit_and_field 3 12 w),
    omega (arith, bit_and_field 5 15 w),
    omega (arith, bit_and_field 5 20 w),
    omega (arith, bit_and_field 7 25 w),
  )

  val-plain :
      (m : IMnemo)
      → i_opcode m ≡ opcode w
      → i_funct3 m ≡ funct3 w
      → (new_i m (rd w) (rs1 w) (w >>> 20)).val ≡ w
  val-plain m o f = omega (arith, fixed_fields, val-new_i m (rd w) (rs1 w) (w >>> 20))

  val-Form : {i : Instruction} → IsCanonical w → Form w i → i.val ≡ w
  val-Form c (plain m o f e) = rw e (val-plain m o f)
  val-Form c (jump_reg o e) = rw e (val-plain jalr o (sym (c.jalr_funct3 (sym o))))
  val-Form c (shift_logical o f g e) = rw e (
      omega (
        arith,
        fixed_fields,
        bit_and_ones 5 (w >>> 20),
        val-new_i srli (rd w) (rs1 w) (bit_and (w >>> 20) 0b11111),
      ))
  val-Form c (shift_arithmetic o f g e) = absurd (ground (arith, c.not_srai (sym o) (sym f)))
  val-Form c (nop o e) = absurd (c.not_fence o)
  val-Form c (extended m o e) = absurd (c.not_extended o)
  val-Form c (op m o f g e) = rw e (omega (arith, fixed_fields, val-new_r m (rd w) (rs1 w) (rs2 w)))
  val-Form c (store m o f e) =
      rw e (omega (arith, fixed_fields, s_imm_sum w, val-new_s m (rs1 w) (rs2 w) (store_offset w)))
  val-Form c (branch m o f e) =
      rw e (
        omega
          (arith, fixed_fields, b_imm_sum w fits, val-new_b m (rs1 w) (rs2 w) (branch_offset w)))
  val-Form c (upper m o e) = rw e (
      omega (
        arith,
        fixed_fields,
        bit_and_field 20 12 w,
        val-new_u m (rd w) (bit_and w 0xfffff000 >>> 12),
      ))
  val-Form c (jump m o e) = rw e (
      omega (
        arith,
        fixed_fields,
        j_imm_sum w fits,
        val-new_j m (rd w) (jump_offset w) (omega (arith, fixed_fields)),
      ))

-- If a 32-bit word decodes to an object and is none of the words that the decoder maps to another
-- one (fences, extended instructions, srai, jalr with a funct3 other than 0), the word that the
-- object keeps is the decoded word.
pub val-decode :
    (w : ℕ) {i : Instruction} → w < 2 ^ 32 → IsCanonical w → decode w ≡ some i → i.val ≡ w
val-decode w fits c e = val-Form w fits c (decode-Form w e)
