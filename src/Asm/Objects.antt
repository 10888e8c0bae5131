-- ===== src/Asm/Objects.antt =====
-- The constructors of include/Instructions.h from a mnemonic's tokens.
use rip_sim.Base.{
  ℕ, ◌%◌, ◌^◌, Bool, true, false, List, ◌==◌, if◌then◌else◌, bit_or, ◌<<<◌, Result, ok, assertion,
  guard, ◌>>=◌, ◌>>◌,
}
use rip_sim.Insts.{
  IMnemo, RMnemo, SMnemo, BMnemo, UMnemo, JMnemo, lb, lh, lw, lbu, lhu, Instruction, b_body, new_i,
  new_r, new_u, new_j, new_s, new_b,
}
use rip_sim.Text.Chars.{Chars, codes, same, length}
use rip_sim.Text.Numbers.{stoi}
use rip_sim.Asm.Operands.{tok, find_reg, parse_offset_reg, bitset5}

unfoldable pub reg_tok : List Chars → ℕ → Result ℕ
unfolding tok find_reg
reg_tok toks i = do t ← tok toks i; find_reg t

unfoldable pub int_tok : List Chars → ℕ → Result ℕ
unfolding tok
int_tok toks i = do t ← tok toks i; stoi t

abbrev pub is_load : IMnemo → Bool
is_load lb = true
is_load lh = true
is_load lw = true
is_load lbu = true
is_load lhu = true
is_load _ = false

-- `offset(rs1)`: rs1 and the offset.
unfoldable pub offset_operands : List Chars → Result (ℕ × ℕ)
unfolding tok parse_offset_reg bitset5
offset_operands toks = do
  t ← tok toks 2
  off_reg ← parse_offset_reg t
  rs1 ← bitset5 off_reg.1
  ok (rs1, off_reg.0 % 2 ^ 12)

-- The other form: `rs1, imm`.
unfoldable pub immediate_operands : List Chars → Result (ℕ × ℕ)
unfolding reg_tok int_tok
immediate_operands toks = do rs1 ← reg_tok toks 2; imm ← int_tok toks 3; ok (rs1, imm % 2 ^ 12)

unfoldable pub i_operands : IMnemo → List Chars → Result (ℕ × ℕ)
unfolding offset_operands immediate_operands
i_operands m toks =
    if length toks == 3
    then (guard (is_load m) assertion >> offset_operands toks)
    else immediate_operands toks

-- The words are put together as in the constructors from fields.
unfoldable pub i_from_tokens : IMnemo → List Chars → Result Instruction
unfolding reg_tok i_operands same tok
i_from_tokens m toks = do
  rd ← reg_tok toks 1
  ops ← i_operands m toks
  t ← tok toks 0
  let imm = if same t (codes "srai") then bit_or ops.1 (1 <<< 10) else ops.1
  ok (new_i m rd ops.0 imm)

unfoldable pub r_from_tokens : RMnemo → List Chars → Result Instruction
unfolding reg_tok
r_from_tokens m toks = do
  rd ← reg_tok toks 1
  rs1 ← reg_tok toks 2
  rs2 ← reg_tok toks 3
  ok (new_r m rd rs1 rs2)

unfoldable pub u_from_tokens : UMnemo → List Chars → Result Instruction
unfolding reg_tok int_tok
u_from_tokens m toks = do rd ← reg_tok toks 1; imm ← int_tok toks 2; ok (new_u m rd (imm % 2 ^ 20))

unfoldable pub j_from_tokens : JMnemo → List Chars → Result Instruction
unfolding reg_tok int_tok
j_from_tokens m toks = do rd ← reg_tok toks 1; imm ← int_tok toks 2; ok (new_j m rd (imm % 2 ^ 21))

unfoldable pub s_from_tokens : SMnemo → List Chars → Result Instruction
unfolding reg_tok offset_operands
s_from_tokens m toks = do
  rs2 ← reg_tok toks 1
  ops ← offset_operands toks
  ok (new_s m ops.0 rs2 ops.1)

-- A local `Imm` takes the immediate; the member of the same name keeps the value 0.
unfoldable pub b_from_tokens : BMnemo → List Chars → Result Instruction
unfolding reg_tok int_tok
b_from_tokens m toks = do
  rs1 ← reg_tok toks 1
  rs2 ← reg_tok toks 2
  imm ← int_tok toks 3
  ok (record { body = b_body m rs1 rs2 0; val = (new_b m rs1 rs2 (imm % 2 ^ 13)).val })
