-- ===== src/Decoder/Fields.antt =====
-- What lib/Decoder.cpp makes of a word: the class and the fields of the object, and what the word
-- must hold for it.
use rip_sim.Base.{
  ℕ, ◌≡◌, refl, sym, arith, bit_and, Bool, true, false, ◌&&◌, ◌==◌, ==_iff, if◌then◌else◌, ◌>>>◌,
  Option, none, some,
}
use rip_sim.Insts.{
  Instruction, IMnemo, RMnemo, SMnemo, BMnemo, UMnemo, JMnemo, new_i, new_r, new_u, new_j, new_s,
  new_b, i_opcode, i_funct3, r_opcode, r_funct3, r_funct7, s_opcode, s_funct3, b_opcode, b_funct3,
  u_opcode, j_opcode, addi, jalr, srli, srai,
}
use rip_sim.Decoder.{opcode, rd, rs1, rs2, funct3, funct7, store_offset, branch_offset, jump_offset}

-- `plain`: the I-type words whose immediate is the upper twelve bits. `jump_reg`: jalr, which is
-- taken at every funct3. The shifts to the right: the immediate is cut to five bits. `nop` and
-- `extended`: words that are mapped to an object of their own.
pub data Form (w : ℕ) (i : Instruction) : Type 0 where
  plain :
      (m : IMnemo)
      → i_opcode m ≡ opcode w
      → i_funct3 m ≡ funct3 w
      → i ≡ new_i m (rd w) (rs1 w) (w >>> 20)
      → Form w i
  jump_reg : i_opcode jalr ≡ opcode w → i ≡ new_i jalr (rd w) (rs1 w) (w >>> 20) → Form w i
  shift_logical :
      i_opcode srli ≡ opcode w
      → i_funct3 srli ≡ funct3 w
      → funct7 w ≡ 0
      → i ≡ new_i srli (rd w) (rs1 w) (bit_and (w >>> 20) 0b11111)
      → Form w i
  shift_arithmetic :
      i_opcode srai ≡ opcode w
      → i_funct3 srai ≡ funct3 w
      → (funct7 w == 0) ≡ false
      → i ≡ new_i srai (rd w) (rs1 w) (bit_and (w >>> 20) 0b11111)
      → Form w i
  nop : opcode w ≡ 0b0001111 → i ≡ new_i addi (rd w) (rs1 w) 0 → Form w i
  extended : (m : IMnemo) → opcode w ≡ 0b0001011 → i ≡ new_i m 0 0 0 → Form w i
  op :
      (m : RMnemo)
      → r_opcode ≡ opcode w
      → r_funct3 m ≡ funct3 w
      → r_funct7 m ≡ funct7 w
      → i ≡ new_r m (rd w) (rs1 w) (rs2 w)
      → Form w i
  store :
      (m : SMnemo)
      → s_opcode ≡ opcode w
      → s_funct3 m ≡ funct3 w
      → i ≡ new_s m (rs1 w) (rs2 w) (store_offset w)
      → Form w i
  branch :
      (m : BMnemo)
      → b_opcode ≡ opcode w
      → b_funct3 m ≡ funct3 w
      → i ≡ new_b m (rs1 w) (rs2 w) (branch_offset w)
      → Form w i
  upper :
      (m : UMnemo)
      → u_opcode m ≡ opcode w
      → i ≡ new_u m (rd w) (bit_and w 0xfffff000 >>> 12)
      → Form w i
  jump : (m : JMnemo) → j_opcode m ≡ opcode w → i ≡ new_j m (rd w) (jump_offset w) → Form w i

-- The null pointer, or an object of a form that belongs to the word.
pub data Decoded (w : ℕ) : Option Instruction → Type 0 where
  nothing : Decoded w none
  object : {i : Instruction} → Form w i → Decoded w (some i)

pub if_Decoded :
    {w : ℕ} (b : Bool) {x y : Option Instruction}
    → (b ≡ true → Decoded w x)
    → (b ≡ false → Decoded w y)
    → Decoded w (if b then x else y)
if_Decoded true h k = h refl
if_Decoded false h k = k refl

-- A test that holds.
pub hit : {a b : ℕ} → (a == b) ≡ true → b ≡ a
hit {a} {b} e = sym ((==_iff a b).0 e)

pub hit_both : {a b c d : ℕ} → (a == b && c == d) ≡ true → (b ≡ a) × (d ≡ c)
hit_both {a} {b} {c} {d} e = ground arith
