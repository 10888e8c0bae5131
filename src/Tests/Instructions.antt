-- ===== src/Tests/Instructions.antt =====
-- Runs of the decoder, of the encoders and of the getters.
use rip_sim.Base.{ℕ, ◌<◌, ◌↔◌, ◌≡◌, arith, some}
use rip_sim.Insts.{Instruction, new_i, new_r, srli, srai, ext, extx, add, sub}
use rip_sim.Encoding.Reads.{Reads}
use rip_sim.Decoder.{decode}
use rip_sim.Decoder.RoundTrip.{IsCanonical, val-decode}
use rip_sim.Decoder.Coherent.{decode-Reads}
use rip_sim.Decoder.Immediate.{decode-new_i, decode-new_i_iff}
use rip_sim.Decoder.Encodes.{decode-new_r}

decode-new_i_iff_example :
    (decode (new_i srli 10 11 40).val ≡ some (new_i srli 10 11 40)) ↔ (40 < 32)
decode-new_i_iff_example = decode-new_i_iff srli 10 11 40 (omega arith) (omega arith) (omega arith)

-- A shift by 5, as the assembler builds it and as the decoder gives it back.
decode-srai : decode (new_i srai 1 2 1029).val ≡ some (new_i srai 1 2 5)
decode-srai = decode-new_i srai 1 2 1029 (omega arith) (omega arith) (omega arith)

decode-ext : decode (new_i ext 0 0 0).val ≡ some (new_i extx 0 0 0)
decode-ext = decode-new_i ext 0 0 0 (omega arith) (omega arith) (omega arith)

decode-new_r_example : decode (new_r sub 5 6 7).val ≡ some (new_r sub 5 6 7)
decode-new_r_example = decode-new_r sub 5 6 7 (omega arith) (omega arith) (omega arith)

-- `add x5, x6, x7`
abbrev add_word : ℕ
add_word = 0x007302b3

abbrev add_instruction : Instruction
add_instruction = new_r add 5 6 7

decode_add : decode add_word ≡ some add_instruction
unfolding new_r
decode_add = decode-new_r add 5 6 7 (omega arith) (omega arith) (omega arith)

add_word-IsCanonical : IsCanonical add_word
add_word-IsCanonical = record {
  not_extended = omega arith;
  not_fence = omega arith;
  not_srai = λ o f. absurd (omega arith);
  jalr_funct3 = λ o. absurd (omega arith);
}

val-decode_example : add_instruction.val ≡ add_word
val-decode_example = val-decode add_word (omega arith) add_word-IsCanonical decode_add

decode-Reads_example : Reads add_instruction add_instruction.body
decode-Reads_example = decode-Reads add_word (omega arith) decode_add
