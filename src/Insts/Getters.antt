-- ===== src/Insts/Getters.antt =====
-- The getters of class Instruction, and the sign extension, of include/Instructions.h.
use rip_sim.Base.{
  ℕ, ◌+◌, ◌-◌, ◌^◌, bit_and, bit_or, Bool, true, false, u32, ltb, if◌then◌else◌, ◌<<<◌, ◌>>>◌,
  Result, ok, err, assertion,
}
use rip_sim.Insts.Objects.{Instruction, Body, i_body, u_body, j_body, s_body, b_body}

-- `hasRd`, `hasRs1`, `hasRs2`: by the tables, in which the mnemonics of one class do not meet those
-- of another.
abbrev pub has_rd : Body → Bool
has_rd (s_body m rs1 rs2 imm) = false
has_rd (b_body m rs1 rs2 imm) = false
has_rd _ = true

abbrev pub has_rs1 : Body → Bool
has_rs1 (u_body m rd imm) = false
has_rs1 (j_body m rd imm) = false
has_rs1 _ = true

abbrev pub has_rs2 : Body → Bool
has_rs2 (i_body m rd rs1 imm) = false
has_rs2 (u_body m rd imm) = false
has_rs2 (j_body m rd imm) = false
has_rs2 _ = true

-- The getters assert the class, and read `Val`.
unfoldable pub get_rd : Instruction → Result ℕ
get_rd i = if has_rd i.body then ok (bit_and i.val 0x00000f80 >>> 7) else err assertion

unfoldable pub get_rs1 : Instruction → Result ℕ
get_rs1 i = if has_rs1 i.body then ok (bit_and i.val 0x000f8000 >>> 15) else err assertion

unfoldable pub get_rs2 : Instruction → Result ℕ
get_rs2 i = if has_rs2 i.body then ok (bit_and i.val 0x01f00000 >>> 20) else err assertion

abbrev is_i : Body → Bool
is_i (i_body m rd rs1 imm) = true
is_i _ = false

abbrev is_s : Body → Bool
is_s (s_body m rs1 rs2 imm) = true
is_s _ = false

abbrev is_j : Body → Bool
is_j (j_body m rd imm) = true
is_j _ = false

abbrev is_b : Body → Bool
is_b (b_body m rs1 rs2 imm) = true
is_b _ = false

abbrev is_u : Body → Bool
is_u (u_body m rd imm) = true
is_u _ = false

unfoldable pub get_i_imm : Instruction → Result ℕ
get_i_imm i = if is_i i.body then ok (bit_and i.val 0xfff00000 >>> 20) else err assertion

unfoldable pub get_s_imm : Instruction → Result ℕ
get_s_imm i =
    if is_s i.body
    then ok (bit_or (bit_and i.val 0xfe000000 >>> 20) (bit_and (i.val >>> 7) 0x1f))
    else err assertion

unfoldable pub get_j_imm : Instruction → Result ℕ
get_j_imm i =
    if is_j i.body
    then ok (
        bit_or
          (bit_or (bit_or (bit_and i.val 0x80000000 >>> 11) (bit_and i.val 0xff000))
            (bit_and (i.val >>> 9) 0x800))
          (bit_and (i.val >>> 20) 0x7fe))
    else err assertion

unfoldable pub get_b_imm : Instruction → Result ℕ
get_b_imm i =
    if is_b i.body
    then ok (
        bit_or
          (bit_or (bit_or (bit_and i.val 0x80000000 >>> 19) (u32 (bit_and i.val 0x80 <<< 4)))
            (bit_and (i.val >>> 20) 0x7e0))
          (bit_and (i.val >>> 7) 0x1e))
    else err assertion

unfoldable pub get_u_imm : Instruction → Result ℕ
get_u_imm i = if is_u i.body then ok (bit_and i.val 0xfffff000 >>> 12) else err assertion

-- `signExtend` of a `std::bitset<n>` to an `int`: with the top bit set, ones above bit n - 1.
abbrev pub sign_extend : ℕ → ℕ → ℕ
sign_extend n bs = if ltb bs (2 ^ (n - 1)) then bs else 2 ^ 32 - 2 ^ n + bs
