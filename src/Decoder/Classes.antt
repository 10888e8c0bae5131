-- ===== src/Decoder/Classes.antt =====
-- Each case of the switch in lib/Decoder.cpp makes an object of the form that belongs to the word.
use mathlib.Core.Path.{subst}
use rip_sim.Base.{ℕ, ◌≡◌, refl, sym, bit_or, ◌&&◌, ◌==◌, ==_iff, ◌<<<◌, some}
use rip_sim.Insts.{
  Instruction, r_opcode, s_opcode, b_opcode, addi, slti, sltiu, xori, ori, andi, lb, lh, lw, lbu,
  lhu, slli, csrrw, csrrs, csrrc, csrrwi, csrrsi, csrrci, ecall, ebreak, uret, sret, mret, ext,
  extx, add, sub, sll, slt, sltu, xor, srl, sra, or, and, mul, mulh, mulhsu, mulhu, div, divu, rem,
  remu, sb, sh, sw, beq, bne, blt, bge, bltu, bgeu, lui, auipc, jal,
}
use rip_sim.Decoder.{
  opcode, rs2, funct3, funct7, decode_load, decode_extended, decode_fence, decode_op, decode_op_imm,
  decode_store, decode_branch, decode_system, dispatch, decode,
}
use rip_sim.Decoder.Fields.{
  Form, Decoded, nothing, object, plain, jump_reg, shift_logical, shift_arithmetic, nop, extended,
  op, store, branch, upper, jump, if_Decoded, hit, hit_both,
}

module _ (w : ℕ) where
  decode_load-Decoded : 3 ≡ opcode w → Decoded w (decode_load (funct3 w) w)
  unfolding decode_load
  decode_load-Decoded o =
      if_Decoded (funct3 w == 0) (λ e. object (plain lb o (hit e) refl))
        (λ _.
          if_Decoded (funct3 w == 1) (λ e. object (plain lh o (hit e) refl))
            (λ _.
              if_Decoded (funct3 w == 2) (λ e. object (plain lw o (hit e) refl))
                (λ _.
                  if_Decoded (funct3 w == 4) (λ e. object (plain lbu o (hit e) refl))
                    (λ _.
                      if_Decoded (funct3 w == 5) (λ e. object (plain lhu o (hit e) refl))
                        (λ _. nothing)))))

  decode_extended-Decoded : opcode w ≡ 0b0001011 → Decoded w (decode_extended w)
  unfolding decode_extended
  decode_extended-Decoded o =
      if_Decoded (rs2 w == 0) (λ e. object (extended extx o refl))
        (λ _. if_Decoded (rs2 w == 1) (λ e. object (extended ext o refl)) (λ _. nothing))

  decode_fence-Decoded : opcode w ≡ 0b0001111 → Decoded w (decode_fence (funct3 w) w)
  unfolding decode_fence
  decode_fence-Decoded o =
      if_Decoded (funct3 w == 0) (λ e. object (nop o refl))
        (λ _. if_Decoded (funct3 w == 1) (λ e. object (nop o refl)) (λ _. nothing))

  decode_op-Decoded : r_opcode ≡ opcode w → Decoded w (decode_op (funct3 w) (funct7 w) w)
  unfolding decode_op
  decode_op-Decoded o =
      if_Decoded (funct3 w == 0 && funct7 w == 0)
        (λ e. object (op add o (hit_both e).0 (hit_both e).1 refl))
        (λ _.
          if_Decoded (funct3 w == 0 && funct7 w == 32)
            (λ e. object (op sub o (hit_both e).0 (hit_both e).1 refl))
            (λ _.
              if_Decoded (funct3 w == 1 && funct7 w == 0)
                (λ e. object (op sll o (hit_both e).0 (hit_both e).1 refl))
                (λ _.
                  if_Decoded (funct3 w == 2 && funct7 w == 0)
                    (λ e. object (op slt o (hit_both e).0 (hit_both e).1 refl))
                    (λ _.
                      if_Decoded (funct3 w == 3 && funct7 w == 0)
                        (λ e. object (op sltu o (hit_both e).0 (hit_both e).1 refl))
                        (λ _.
                          if_Decoded (funct3 w == 5 && funct7 w == 0)
                            (λ e. object (op srl o (hit_both e).0 (hit_both e).1 refl))
                            (λ _.
                              if_Decoded (funct3 w == 5 && funct7 w == 32)
                                (λ e. object (op sra o (hit_both e).0 (hit_both e).1 refl))
                                (λ _.
                                  if_Decoded (funct3 w == 6 && funct7 w == 0)
                                    (λ e. object (op or o (hit_both e).0 (hit_both e).1 refl))
                                    (λ _.
                                      if_Decoded (funct3 w == 7 && funct7 w == 0)
                                        (λ e. object (op and o (hit_both e).0 (hit_both e).1 refl))
                                        (λ _.
                                          if_Decoded (funct3 w == 0 && funct7 w == 1)
                                            (λ e.
                                              object (op mul o (hit_both e).0 (hit_both e).1 refl))
                                            (λ _.
                                              if_Decoded (funct3 w == 1 && funct7 w == 1)
                                                (λ e.
                                                  object
                                                    (op mulh o (hit_both e).0 (hit_both e).1 refl))
                                                (λ _.
                                                  if_Decoded (funct3 w == 2 && funct7 w == 1)
                                                    (λ e. object (
                                                      op mulhsu o (hit_both e).0 (hit_both e).1
                                                        refl))
                                                    (λ _.
                                                      if_Decoded (funct3 w == 3 && funct7 w == 1)
                                                        (λ e. object (
                                                          op mulhu o (hit_both e).0 (hit_both e).1
                                                            refl))
                                                        (λ _.
                                                          if_Decoded
                                                            (funct3 w == 4 && funct7 w == 0)
                                                            (λ e. object (
                                                            op xor o (hit_both e).0 (hit_both e).1
                                                            refl))
                                                            (λ _.
                                                            if_Decoded
                                                            (funct3 w == 4 && funct7 w == 1)
                                                            (λ e. object (
                                                            op div o (hit_both e).0 (hit_both e).1
                                                            refl))
                                                            (λ _.
                                                            if_Decoded
                                                            (funct3 w == 5 && funct7 w == 1)
                                                            (λ e. object (
                                                            op divu o (hit_both e).0 (hit_both e).1
                                                            refl))
                                                            (λ _.
                                                            if_Decoded
                                                            (funct3 w == 6 && funct7 w == 1)
                                                            (λ e. object (
                                                            op rem o (hit_both e).0 (hit_both e).1
                                                            refl))
                                                            (λ _.
                                                            if_Decoded
                                                            (funct3 w == 7 && funct7 w == 1)
                                                            (λ e. object (
                                                            op remu o (hit_both e).0 (hit_both e).1
                                                            refl))
                                                            (λ _. nothing))))))))))))))))))

  decode_op_imm-Decoded : 0x13 ≡ opcode w → Decoded w (decode_op_imm (funct3 w) (funct7 w) w)
  unfolding decode_op_imm
  decode_op_imm-Decoded o =
      if_Decoded (funct3 w == 0) (λ e. object (plain addi o (hit e) refl))
        (λ _.
          if_Decoded (funct3 w == 2) (λ e. object (plain slti o (hit e) refl))
            (λ _.
              if_Decoded (funct3 w == 3) (λ e. object (plain sltiu o (hit e) refl))
                (λ _.
                  if_Decoded (funct3 w == 4) (λ e. object (plain xori o (hit e) refl))
                    (λ _.
                      if_Decoded (funct3 w == 6) (λ e. object (plain ori o (hit e) refl))
                        (λ _.
                          if_Decoded (funct3 w == 7) (λ e. object (plain andi o (hit e) refl))
                            (λ _.
                              if_Decoded (funct3 w == 1) (λ e. object (plain slli o (hit e) refl))
                                (λ _.
                                  if_Decoded (funct3 w == 5)
                                    (λ e.
                                      if_Decoded (funct7 w == 0)
                                        (λ z.
                                          object (shift_logical o (hit e) ((==_iff _ _).0 z) refl))
                                        (λ z. object (shift_arithmetic o (hit e) z refl)))
                                    (λ _. nothing))))))))

  decode_store-Decoded : s_opcode ≡ opcode w → Decoded w (decode_store (funct3 w) w)
  unfolding decode_store
  decode_store-Decoded o =
      if_Decoded (funct3 w == 0) (λ e. object (store sb o (hit e) refl))
        (λ _.
          if_Decoded (funct3 w == 1) (λ e. object (store sh o (hit e) refl))
            (λ _.
              if_Decoded (funct3 w == 2) (λ e. object (store sw o (hit e) refl)) (λ _. nothing)))

  decode_branch-Decoded : b_opcode ≡ opcode w → Decoded w (decode_branch (funct3 w) w)
  unfolding decode_branch
  decode_branch-Decoded o =
      if_Decoded (funct3 w == 0) (λ e. object (branch beq o (hit e) refl))
        (λ _.
          if_Decoded (funct3 w == 1) (λ e. object (branch bne o (hit e) refl))
            (λ _.
              if_Decoded (funct3 w == 4) (λ e. object (branch blt o (hit e) refl))
                (λ _.
                  if_Decoded (funct3 w == 5) (λ e. object (branch bge o (hit e) refl))
                    (λ _.
                      if_Decoded (funct3 w == 6) (λ e. object (branch bltu o (hit e) refl))
                        (λ _.
                          if_Decoded (funct3 w == 7) (λ e. object (branch bgeu o (hit e) refl))
                            (λ _. nothing))))))

  decode_system-Decoded : (f12 : ℕ) → 0x73 ≡ opcode w → Decoded w (decode_system (funct3 w) f12 w)
  unfolding decode_system
  decode_system-Decoded f12 o =
      if_Decoded (funct3 w == 0)
        (λ e.
          if_Decoded (f12 == 0) (λ _. object (plain ecall o (hit e) refl))
            (λ _.
              if_Decoded (f12 == 1) (λ _. object (plain ebreak o (hit e) refl))
                (λ _.
                  if_Decoded (f12 == 2) (λ _. object (plain uret o (hit e) refl))
                    (λ _.
                      if_Decoded (f12 == 258) (λ _. object (plain sret o (hit e) refl))
                        (λ _.
                          if_Decoded (f12 == 770) (λ _. object (plain mret o (hit e) refl))
                            (λ _. nothing))))))
        (λ _.
          if_Decoded (funct3 w == 1) (λ e. object (plain csrrw o (hit e) refl))
            (λ _.
              if_Decoded (funct3 w == 2) (λ e. object (plain csrrs o (hit e) refl))
                (λ _.
                  if_Decoded (funct3 w == 3) (λ e. object (plain csrrc o (hit e) refl))
                    (λ _.
                      if_Decoded (funct3 w == 5) (λ e. object (plain csrrwi o (hit e) refl))
                        (λ _.
                          if_Decoded (funct3 w == 6) (λ e. object (plain csrrsi o (hit e) refl))
                            (λ _.
                              if_Decoded (funct3 w == 7) (λ e. object (plain csrrci o (hit e) refl))
                                (λ _. nothing)))))))

  dispatch-Decoded : Decoded w (dispatch (opcode w) w)
  unfolding dispatch
  dispatch-Decoded =
      if_Decoded (opcode w == 3) (λ e. decode_load-Decoded (hit e))
        (λ _.
          if_Decoded (opcode w == 11) (λ e. decode_extended-Decoded (sym (hit e)))
            (λ _.
              if_Decoded (opcode w == 15) (λ e. decode_fence-Decoded (sym (hit e)))
                (λ _.
                  if_Decoded (opcode w == 23) (λ e. object (upper auipc (hit e) refl))
                    (λ _.
                      if_Decoded (opcode w == 51) (λ e. decode_op-Decoded (hit e))
                        (λ _.
                          if_Decoded (opcode w == 19) (λ e. decode_op_imm-Decoded (hit e))
                            (λ _.
                              if_Decoded (opcode w == 55) (λ e. object (upper lui (hit e) refl))
                                (λ _.
                                  if_Decoded (opcode w == 103) (λ e. object (jump_reg (hit e) refl))
                                    (λ _.
                                      if_Decoded (opcode w == 35)
                                        (λ e. decode_store-Decoded (hit e))
                                        (λ _.
                                          if_Decoded (opcode w == 99)
                                            (λ e. decode_branch-Decoded (hit e))
                                            (λ _.
                                              if_Decoded (opcode w == 111)
                                                (λ e. object (jump jal (hit e) refl))
                                                (λ _.
                                                  if_Decoded (opcode w == 115)
                                                    (λ e.
                                                      decode_system-Decoded
                                                        (bit_or (funct7 w <<< 5) (rs2 w)) (hit e))
                                                    (λ _. nothing))))))))))))

-- `decode` makes nothing of a word but what its class prescribes, for every word.
pub decode-Decoded : (w : ℕ) → Decoded w (decode w)
unfolding decode
decode-Decoded w = dispatch-Decoded w

pub decode-Form : (w : ℕ) {i : Instruction} → decode w ≡ some i → Form w i
decode-Form w {i} e = of_some (subst (Decoded w) e (decode-Decoded w))
  where
    of_some : Decoded w (some i) → Form w i
    of_some (object f) = f
