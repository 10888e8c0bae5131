-- ===== src/Encoding/Sums.antt =====
-- The words that the constructors of include/Instructions.h put together, as sums of fields.
use rip_sim.Base.{
  u32, ◌-◌, ◌/◌, bit_and, bit_and_field, bit_and_ones, ◌>>>◌, ◌<<<◌, ℕ, ◌+◌, ◌*◌, ◌%◌, ◌^◌, ◌<◌,
  ◌≡◌, refl, arith, bit_or, bit_or_disjoint, ap, ◌∙◌,
}
use native.Mathlib.Nat.{mul-div_left, one-le-pow}
use rip_sim.Insts.{
  r_opcode, s_opcode, b_opcode, IMnemo, RMnemo, SMnemo, BMnemo, UMnemo, JMnemo, addi, add, sb, beq,
  lui, jal, i_funct3, i_opcode, r_funct3, r_funct7, s_funct3, b_funct3, u_opcode, j_opcode, new_i,
  new_r, new_s, new_u, new_j, new_b,
}

-- One more field at the low end of a word that is a sum already.
pub or_field : (k : ℕ) {x : ℕ} (a r : ℕ) → x ≡ a → a % 2 ^ k ≡ 0 → r < 2 ^ k → bit_or x r ≡ a + r
or_field k a r e h fits = ap (λ t. bit_or t r) e ∙ bit_or_disjoint k a r h fits

pub i_funct3-lt : (m : IMnemo) → i_funct3 m < 8
i_funct3-lt addi = omega arith
i_funct3-lt _ = omega arith

pub i_opcode-lt : (m : IMnemo) → i_opcode m < 128
i_opcode-lt addi = omega arith
i_opcode-lt _ = omega arith

pub r_funct3-lt : (m : RMnemo) → r_funct3 m < 8
r_funct3-lt add = omega arith
r_funct3-lt _ = omega arith

pub r_funct7-lt : (m : RMnemo) → r_funct7 m < 128
r_funct7-lt add = omega arith
r_funct7-lt _ = omega arith

pub s_funct3-lt : (m : SMnemo) → s_funct3 m < 8
s_funct3-lt sb = omega arith
s_funct3-lt _ = omega arith

pub b_funct3-lt : (m : BMnemo) → b_funct3 m < 8
b_funct3-lt beq = omega arith
b_funct3-lt _ = omega arith

pub u_opcode-lt : (m : UMnemo) → u_opcode m < 128
u_opcode-lt lui = omega arith
u_opcode-lt _ = omega arith

pub j_opcode-eq : (m : JMnemo) → j_opcode m ≡ 0b1101111
j_opcode-eq jal = refl

-- `shifted_field`: what the words of S-, B- and J-type are made of.
pub shifted_field : (k s a : ℕ) → bit_and a ((2 ^ k - 1) * 2 ^ s) >>> s ≡ a / 2 ^ s % 2 ^ k
shifted_field k s a =
    ap (λ t. t / 2 ^ s) (bit_and_field k s a)
    ∙ mul-div_left (a / 2 ^ s % 2 ^ k) (one-le-pow s 2 (omega arith))

abbrev pub word_sum : ℕ → ℕ → ℕ → ℕ → ℕ → ℕ → ℕ
word_sum a b c d e o = a * 2 ^ 25 + b * 2 ^ 20 + c * 2 ^ 15 + d * 2 ^ 12 + e * 2 ^ 7 + o

-- The shape of an R-type word, which I- and S-type words share.
module _ (a b c d e o : ℕ) (ha : a < 128) (hb : b < 32) (hc : c < 32) (hd : d < 8) (he : e < 32)
    (ho : o < 128) where
  fields_upper :
      bit_or (bit_or (a <<< 25) (b <<< 20)) (c <<< 15) ≡ a * 2 ^ 25 + b * 2 ^ 20 + c * 2 ^ 15
  fields_upper =
      or_field 20 (a * 2 ^ 25 + b * 2 ^ 20) (c <<< 15)
        (or_field 25 (a * 2 ^ 25) (b <<< 20) refl (omega arith) (omega arith)) (omega arith)
        (omega arith)

  pub fields_word :
      {x : ℕ}
      → x ≡ a * 2 ^ 25 + b * 2 ^ 20 + c * 2 ^ 15
      → bit_or (bit_or (bit_or x (d <<< 12)) (e <<< 7)) o ≡ word_sum a b c d e o
  fields_word h =
      or_field 7 (a * 2 ^ 25 + b * 2 ^ 20 + c * 2 ^ 15 + d * 2 ^ 12 + e * 2 ^ 7) o
        (or_field 12 (a * 2 ^ 25 + b * 2 ^ 20 + c * 2 ^ 15 + d * 2 ^ 12) (e <<< 7)
          (or_field 15 (a * 2 ^ 25 + b * 2 ^ 20 + c * 2 ^ 15) (d <<< 12) h (omega arith)
            (omega arith))
          (omega arith) (omega arith))
        (omega arith) (omega arith)

pub val-new_i :
    (m : IMnemo) (rd rs1 imm : ℕ)
    → (new_i m rd rs1 imm).val
      ≡ word_sum (imm % 2 ^ 12 / 32) (imm % 32) (rs1 % 32) (i_funct3 m) (rd % 32) (i_opcode m)
unfolding new_i
val-new_i m rd rs1 imm =
    fields_word (imm % 2 ^ 12 / 32) (imm % 32) (rs1 % 32) (i_funct3 m) (rd % 32) (i_opcode m)
      (omega arith) (omega arith) (omega arith) (i_funct3-lt m) (omega arith) (i_opcode-lt m)
      (or_field 20 (imm % 2 ^ 12 * 2 ^ 20) (rs1 % 32 * 2 ^ 15) refl (omega arith) (omega arith)
        ∙ omega arith)

pub val-new_r :
    (m : RMnemo) (rd rs1 rs2 : ℕ)
    → (new_r m rd rs1 rs2).val
      ≡ word_sum (r_funct7 m) (rs2 % 32) (rs1 % 32) (r_funct3 m) (rd % 32) r_opcode
unfolding new_r
val-new_r m rd rs1 rs2 =
    let f = r_funct7-lt m in
    fields_word (r_funct7 m) (rs2 % 32) (rs1 % 32) (r_funct3 m) (rd % 32) r_opcode f (omega arith)
      (omega arith) (r_funct3-lt m) (omega arith) (omega arith)
      (fields_upper (r_funct7 m) (rs2 % 32) (rs1 % 32) 0 0 0 f (omega arith) (omega arith)
        (omega arith) (omega arith) (omega arith))

pub val-new_s :
    (m : SMnemo) (rs1 rs2 imm : ℕ)
    → (new_s m rs1 rs2 imm).val
      ≡ word_sum (imm / 32 % 128) (rs2 % 32) (rs1 % 32) (s_funct3 m) (imm % 32) s_opcode
unfolding new_s
val-new_s m rs1 rs2 imm =
    rw (shifted_field 7 5 imm, bit_and_ones 5 imm)
      (fields_word (imm / 32 % 128) (rs2 % 32) (rs1 % 32) (s_funct3 m) (imm % 32) s_opcode
        (omega arith) (omega arith) (omega arith) (s_funct3-lt m) (omega arith) (omega arith)
        (fields_upper (imm / 32 % 128) (rs2 % 32) (rs1 % 32) 0 0 0 (omega arith) (omega arith)
          (omega arith) (omega arith) (omega arith) (omega arith)))

pub val-new_u :
    (m : UMnemo) (rd imm : ℕ)
    → (new_u m rd imm).val ≡ imm % 2 ^ 20 * 2 ^ 12 + rd % 32 * 2 ^ 7 + u_opcode m
unfolding new_u
val-new_u m rd imm =
    let o = u_opcode-lt m in
    or_field 7 (imm % 2 ^ 20 * 2 ^ 12 + rd % 32 * 2 ^ 7) (u_opcode m)
      (or_field 12 (imm % 2 ^ 20 * 2 ^ 12) (rd % 32 * 2 ^ 7) refl (omega arith) (omega arith))
      (omega arith) (omega arith)

pub val-new_b :
    (m : BMnemo) (rs1 rs2 imm : ℕ)
    → (new_b m rs1 rs2 imm).val
      ≡ word_sum
          (imm / 4096 % 2 * 64 + imm / 32 % 64)
          (rs2 % 32)
          (rs1 % 32)
          (b_funct3 m)
          (imm / 2 % 16 * 2 + imm / 2048 % 2)
          b_opcode
unfolding new_b
val-new_b m rs1 rs2 imm =
    rw
      (shifted_field 1 12 imm, shifted_field 6 5 imm, shifted_field 4 1 imm, shifted_field 1 11 imm)
      (or_field 7 (high + b_funct3 m * 2 ^ 12 + imm / 2 % 16 * 2 ^ 8 + imm / 2048 % 2 * 2 ^ 7)
          b_opcode
          (or_field 8 (high + b_funct3 m * 2 ^ 12 + imm / 2 % 16 * 2 ^ 8) (imm / 2048 % 2 * 2 ^ 7)
            (or_field 12 (high + b_funct3 m * 2 ^ 12) (imm / 2 % 16 * 2 ^ 8)
              (or_field 15 high (b_funct3 m * 2 ^ 12) upper (omega arith) (omega (arith, f)))
              (omega arith) (omega arith))
            (omega arith) (omega arith))
          (omega arith) (omega arith)
        ∙ omega arith)
  where
    f : b_funct3 m < 8
    f = b_funct3-lt m

    high : ℕ
    high = imm / 4096 % 2 * 2 ^ 31 + imm / 32 % 64 * 2 ^ 25 + rs2 % 32 * 2 ^ 20 + rs1 % 32 * 2 ^ 15

    upper :
        bit_or
          (bit_or (bit_or ((imm / 4096 % 2) <<< 31) ((imm / 32 % 64) <<< 25)) ((rs2 % 32) <<< 20))
          ((rs1 % 32) <<< 15)
        ≡ high
    upper =
        or_field 20 (imm / 4096 % 2 * 2 ^ 31 + imm / 32 % 64 * 2 ^ 25 + rs2 % 32 * 2 ^ 20)
          (rs1 % 32 * 2 ^ 15)
          (or_field 25 (imm / 4096 % 2 * 2 ^ 31 + imm / 32 % 64 * 2 ^ 25) (rs2 % 32 * 2 ^ 20)
            (or_field 31 (imm / 4096 % 2 * 2 ^ 31) (imm / 32 % 64 * 2 ^ 25) refl (omega arith)
              (omega arith))
            (omega arith) (omega arith))
          (omega arith) (omega arith)

-- The order of the fields in the word is 20, 10-1, 11, 19-12 of the immediate.
pub val-new_j :
    (m : JMnemo) (rd imm : ℕ)
    → rd < 32
    → (new_j m rd imm).val
      ≡ imm / 2 ^ 20 % 2 * 2 ^ 31
        + imm / 2 % 1024 * 2 ^ 21
        + imm / 2048 % 2 * 2 ^ 20
        + imm / 4096 % 256 * 2 ^ 12
        + rd * 2 ^ 7
        + j_opcode m
unfolding new_j
val-new_j m rd imm h =
    rw
      (
        shifted_field 1 20 imm,
        shifted_field 10 1 imm,
        shifted_field 1 11 imm,
        shifted_field 8 12 imm,
      )
      (ap u32 (
          or_field 7 (b20 + b10 + b11 + b19 + rd * 2 ^ 7) (j_opcode m)
            (or_field 12 (b20 + b10 + b11 + b19) (rd * 2 ^ 7)
              (or_field 20 (b20 + b10 + b11) b19
                (or_field 21 (b20 + b10) b11 (or_field 31 b20 b10 refl (omega arith) (omega arith))
                  (omega arith) (omega arith))
                (omega arith) (omega arith))
              (omega arith) (omega arith))
            (omega arith) (omega (arith, o)))
        ∙ omega (arith, o))
  where
    o : j_opcode m ≡ 0b1101111
    o = j_opcode-eq m

    b20 : ℕ
    b20 = imm / 2 ^ 20 % 2 * 2 ^ 31

    b10 : ℕ
    b10 = imm / 2 % 1024 * 2 ^ 21

    b11 : ℕ
    b11 = imm / 2048 % 2 * 2 ^ 20

    b19 : ℕ
    b19 = imm / 4096 % 256 * 2 ^ 12
