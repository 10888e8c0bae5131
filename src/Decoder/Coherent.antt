-- ===== src/Decoder/Coherent.antt =====
-- The objects of lib/Decoder.cpp and the word they keep: the pipeline reads registers and
-- immediates from the word, `exec` of each class from the fields.
use rip_sim.Base.{ℕ, ◌^◌, ◌<◌, ◌≡◌, arith, some, bit_and_field}
use rip_sim.Insts.{Instruction}
use rip_sim.Encoding.Immediates.{b_imm_sum, j_imm_sum}
use rip_sim.Encoding.Reads.{
  Reads, new_i-Reads, new_r-Reads, new_u-Reads, new_s-Reads, new_b-Reads, new_j-Reads,
}
use rip_sim.Decoder.{decode}
use rip_sim.Decoder.Classes.{decode-Form}
use rip_sim.Decoder.Fields.{
  Form, plain, jump_reg, shift_logical, shift_arithmetic, nop, extended, op, store, branch, upper,
  jump,
}

Form-Reads : (w : ℕ) {i : Instruction} → w < 2 ^ 32 → Form w i → Reads i i.body
Form-Reads w h (plain m o f e) = rw e (new_i-Reads _ _ _ _)
Form-Reads w h (jump_reg o e) = rw e (new_i-Reads _ _ _ _)
Form-Reads w h (shift_logical o f g e) = rw e (new_i-Reads _ _ _ _)
Form-Reads w h (shift_arithmetic o f g e) = rw e (new_i-Reads _ _ _ _)
Form-Reads w h (nop o e) = rw e (new_i-Reads _ _ _ _)
Form-Reads w h (extended m o e) = rw e (new_i-Reads _ _ _ _)
Form-Reads w h (op m o f g e) = rw e (new_r-Reads _ _ _ _)
Form-Reads w h (store m o f e) = rw e (new_s-Reads _ _ _ _)
Form-Reads w h (branch m o f e) = rw e (new_b-Reads _ _ _ _ (omega (arith, b_imm_sum w h)))
Form-Reads w h (upper m o e) = rw e (new_u-Reads _ _ _)
Form-Reads w h (jump m o e) =
    rw e (new_j-Reads _ _ _ (omega (arith, bit_and_field 5 7 w)) (omega (arith, j_imm_sum w h)))

-- Whatever object a 32-bit word decodes to, each register and immediate getter of its class reads,
-- from the word that the object keeps, the field that the object holds.
pub decode-Reads : (w : ℕ) {i : Instruction} → w < 2 ^ 32 → decode w ≡ some i → Reads i i.body
decode-Reads w h e = Form-Reads w h (decode-Form w e)
