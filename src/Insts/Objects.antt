-- ===== src/Insts/Objects.antt =====
-- The instruction classes of include/Instructions.h and their constructors from fields.
use rip_sim.Base.{ℕ, ◌%◌, ◌^◌, bit_and, bit_or, u32, ◌<<<◌, ◌>>>◌}
use rip_sim.Insts.Kinds.{
  IMnemo, RMnemo, SMnemo, BMnemo, UMnemo, JMnemo, i_funct3, i_opcode, s_funct3, s_opcode, b_funct3,
  b_opcode, r_funct7, r_funct3, r_opcode, u_opcode, j_opcode,
}

-- The bit sets that an object of each class holds.
pub data Body : Type 0 where
  i_body : IMnemo → (rd rs1 imm : ℕ) → Body
  r_body : RMnemo → (rd rs1 rs2 : ℕ) → Body
  u_body : UMnemo → (rd imm : ℕ) → Body
  j_body : JMnemo → (rd imm : ℕ) → Body
  s_body : SMnemo → (rs1 rs2 imm : ℕ) → Body
  b_body : BMnemo → (rs1 rs2 imm : ℕ) → Body

-- An object, with the word `Val` of its base class.
pub record Instruction : Type 0 where
  pub body : Body
  pub val : ℕ

-- The constructors that the decoder calls. A `std::bitset<n>` keeps the low n bits.
unfoldable pub new_i : IMnemo → ℕ → ℕ → ℕ → Instruction
new_i m rd rs1 imm = record {
  body = i_body m (rd % 2 ^ 5) (rs1 % 2 ^ 5) (imm % 2 ^ 12);
  val =
      bit_or
        (bit_or (bit_or (bit_or ((imm % 2 ^ 12) <<< 20) ((rs1 % 2 ^ 5) <<< 15)) (i_funct3 m <<< 12))
          ((rd % 2 ^ 5) <<< 7))
        (i_opcode m);
}

unfoldable pub new_r : RMnemo → ℕ → ℕ → ℕ → Instruction
new_r m rd rs1 rs2 = record {
  body = r_body m (rd % 2 ^ 5) (rs1 % 2 ^ 5) (rs2 % 2 ^ 5);
  val =
      bit_or
        (bit_or
          (bit_or
            (bit_or (bit_or (r_funct7 m <<< 25) ((rs2 % 2 ^ 5) <<< 20)) ((rs1 % 2 ^ 5) <<< 15))
            (r_funct3 m <<< 12))
          ((rd % 2 ^ 5) <<< 7))
        r_opcode;
}

unfoldable pub new_u : UMnemo → ℕ → ℕ → Instruction
new_u m rd imm = record {
  body = u_body m (rd % 2 ^ 5) (imm % 2 ^ 20);
  val = bit_or (bit_or ((imm % 2 ^ 20) <<< 12) ((rd % 2 ^ 5) <<< 7)) (u_opcode m);
}

-- Here and in the next two the word is built from the arguments themselves.
unfoldable pub new_j : JMnemo → ℕ → ℕ → Instruction
new_j m rd imm = record {
  body = j_body m (rd % 2 ^ 5) (imm % 2 ^ 21);
  val = u32 (
      bit_or
        (bit_or
          (bit_or
            (bit_or
              (bit_or ((bit_and imm 0b100000000000000000000 >>> 20) <<< 31)
                ((bit_and imm 0b000000000011111111110 >>> 1) <<< 21))
              ((bit_and imm 0b000000000100000000000 >>> 11) <<< 20))
            ((bit_and imm 0b011111111000000000000 >>> 12) <<< 12))
          (rd <<< 7))
        (j_opcode m));
}

unfoldable pub new_s : SMnemo → ℕ → ℕ → ℕ → Instruction
new_s m rs1 rs2 imm = record {
  body = s_body m (rs1 % 2 ^ 5) (rs2 % 2 ^ 5) (imm % 2 ^ 12);
  val =
      bit_or
        (bit_or
          (bit_or
            (bit_or (bit_or ((bit_and imm 0b111111100000 >>> 5) <<< 25) ((rs2 % 2 ^ 5) <<< 20))
              ((rs1 % 2 ^ 5) <<< 15))
            (s_funct3 m <<< 12))
          (bit_and imm 0b000000011111 <<< 7))
        s_opcode;
}

unfoldable pub new_b : BMnemo → ℕ → ℕ → ℕ → Instruction
new_b m rs1 rs2 imm = record {
  body = b_body m (rs1 % 2 ^ 5) (rs2 % 2 ^ 5) (imm % 2 ^ 13);
  val =
      bit_or
        (bit_or
          (bit_or
            (bit_or
              (bit_or
                (bit_or
                  (bit_or ((bit_and imm 0b1000000000000 >>> 12) <<< 31)
                    ((bit_and imm 0b0011111100000 >>> 5) <<< 25))
                  ((rs2 % 2 ^ 5) <<< 20))
                ((rs1 % 2 ^ 5) <<< 15))
              (b_funct3 m <<< 12))
            ((bit_and imm 0b0000000011110 >>> 1) <<< 8))
          ((bit_and imm 0b0100000000000 >>> 11) <<< 7))
        b_opcode;
}
