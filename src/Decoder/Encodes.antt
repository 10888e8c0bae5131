-- ===== src/Decoder/Encodes.antt =====
-- The word of every object that a constructor of include/Instructions.h makes is decoded to that
-- object.
use rip_sim.Base.{
  ℕ, ◌^◌, ◌%◌, ◌<◌, ◌≡◌, refl, arith, ap, ap₂, ◌∙◌, some, bit_and_field, ◌>>>◌, bit_and_ones,
  bit_and,
}
use rip_sim.Insts.{
  RMnemo, SMnemo, BMnemo, UMnemo, JMnemo, new_r, new_s, new_b, new_u, new_j, r_opcode, r_funct3,
  r_funct7, s_opcode, s_funct3, b_opcode, b_funct3, u_opcode, j_opcode, add, sb, beq, lui, auipc,
  jal,
}
use rip_sim.Encoding.Immediates.{s_imm_sum, b_imm_sum, j_imm_sum}
use rip_sim.Encoding.Sums.{
  val-new_r, val-new_s, val-new_b, val-new_u, val-new_j, r_funct3-lt, r_funct7-lt, s_funct3-lt,
  b_funct3-lt, u_opcode-lt, j_opcode-eq,
}
use rip_sim.Decoder.{
  decode, dispatch, decode_op, decode_store, decode_branch, opcode, rd, rs1, rs2, funct3, funct7,
  store_offset, branch_offset, jump_offset,
}

-- One step of the switch.
decode_at : (w : ℕ) {k : ℕ} → opcode w ≡ k → decode w ≡ dispatch k w
unfolding decode
decode_at w e = ap (λ k. dispatch k w) e

decode_op_at :
    (m : RMnemo) (w : ℕ)
    → decode_op (r_funct3 m) (r_funct7 m) w ≡ some (new_r m (rd w) (rs1 w) (rs2 w))
unfolding decode_op
decode_op_at add w = refl
decode_op_at _ w = refl

decode_store_at :
    (m : SMnemo) (w : ℕ)
    → decode_store (s_funct3 m) w ≡ some (new_s m (rs1 w) (rs2 w) (store_offset w))
unfolding decode_store
decode_store_at sb w = refl
decode_store_at _ w = refl

decode_branch_at :
    (m : BMnemo) (w : ℕ)
    → decode_branch (b_funct3 m) w ≡ some (new_b m (rs1 w) (rs2 w) (branch_offset w))
unfolding decode_branch
decode_branch_at beq w = refl
decode_branch_at _ w = refl

dispatch_op : (w : ℕ) → dispatch r_opcode w ≡ decode_op (funct3 w) (funct7 w) w
unfolding dispatch
dispatch_op w = refl

dispatch_store : (w : ℕ) → dispatch s_opcode w ≡ decode_store (funct3 w) w
unfolding dispatch
dispatch_store w = refl

dispatch_branch : (w : ℕ) → dispatch b_opcode w ≡ decode_branch (funct3 w) w
unfolding dispatch
dispatch_branch w = refl

dispatch_upper :
    (m : UMnemo) (w : ℕ)
    → dispatch (u_opcode m) w ≡ some (new_u m (rd w) (bit_and w 0xfffff000 >>> 12))
unfolding dispatch
dispatch_upper lui w = refl
dispatch_upper auipc w = refl

dispatch_jump :
    (m : JMnemo) (w : ℕ) → dispatch (j_opcode m) w ≡ some (new_j m (rd w) (jump_offset w))
unfolding dispatch
dispatch_jump jal w = refl

-- The word of every R-type object with registers below 32 decodes to that object.
pub decode-new_r :
    (m : RMnemo) (d a b : ℕ)
    → d < 32
    → a < 32
    → b < 32
    → decode (new_r m d a b).val ≡ some (new_r m d a b)
decode-new_r m d a b hd ha hb =
    let v = (new_r m d a b).val in
    let e = val-new_r m d a b in
    let f3 = r_funct3-lt m in
    let f7 = r_funct7-lt m in
    let e3 : funct3 v ≡ r_funct3 m = omega (arith, bit_and_field 3 12 v) in
    let e7 : funct7 v ≡ r_funct7 m = omega (arith, bit_and_field 7 25 v) in
    let ed : rd v ≡ d = omega (arith, bit_and_field 5 7 v) in
    let ea : rs1 v ≡ a = omega (arith, bit_and_field 5 15 v) in
    let eb : rs2 v ≡ b = omega (arith, bit_and_field 5 20 v) in
    decode_at v (omega (arith, bit_and_ones 7 v))
    ∙ dispatch_op v
    ∙ ap₂ (λ x y. decode_op x y v) e3 e7
    ∙ decode_op_at m v
    ∙ cc (ed, ea, eb)

-- The word of every S-type object with registers below 32 and a 12-bit immediate decodes to that
-- object.
pub decode-new_s :
    (m : SMnemo) (a b imm : ℕ)
    → a < 32
    → b < 32
    → imm < 2 ^ 12
    → decode (new_s m a b imm).val ≡ some (new_s m a b imm)
decode-new_s m a b imm ha hb hi =
    let v = (new_s m a b imm).val in
    let e = val-new_s m a b imm in
    let f3 = s_funct3-lt m in
    let e3 : funct3 v ≡ s_funct3 m = omega (arith, bit_and_field 3 12 v) in
    let ea : rs1 v ≡ a = omega (arith, bit_and_field 5 15 v) in
    let eb : rs2 v ≡ b = omega (arith, bit_and_field 5 20 v) in
    let ei : store_offset v ≡ imm = omega (arith, s_imm_sum v) in
    decode_at v (omega (arith, bit_and_ones 7 v))
    ∙ dispatch_store v
    ∙ ap (λ x. decode_store x v) e3
    ∙ decode_store_at m v
    ∙ cc (ea, eb, ei)

-- The word of every B-type object with registers below 32 and an even 13-bit immediate decodes to
-- that object.
pub decode-new_b :
    (m : BMnemo) (a b imm : ℕ)
    → a < 32
    → b < 32
    → imm < 2 ^ 13
    → imm % 2 ≡ 0
    → decode (new_b m a b imm).val ≡ some (new_b m a b imm)
decode-new_b m a b imm ha hb hi even =
    let v = (new_b m a b imm).val in
    let e = val-new_b m a b imm in
    let f3 = b_funct3-lt m in
    let e3 : funct3 v ≡ b_funct3 m = omega (arith, bit_and_field 3 12 v) in
    let ea : rs1 v ≡ a = omega (arith, bit_and_field 5 15 v) in
    let eb : rs2 v ≡ b = omega (arith, bit_and_field 5 20 v) in
    let ei : branch_offset v ≡ imm = b_imm_sum v (omega arith) ∙ omega arith in
    decode_at v (omega (arith, bit_and_ones 7 v))
    ∙ dispatch_branch v
    ∙ ap (λ x. decode_branch x v) e3
    ∙ decode_branch_at m v
    ∙ cc (ea, eb, ei)

-- The word of every U-type object with rd below 32 and a 20-bit immediate decodes to that object.
pub decode-new_u :
    (m : UMnemo) (d imm : ℕ)
    → d < 32
    → imm < 2 ^ 20
    → decode (new_u m d imm).val ≡ some (new_u m d imm)
decode-new_u m d imm hd hi =
    let v = (new_u m d imm).val in
    let e = val-new_u m d imm in
    let o = u_opcode-lt m in
    let ed : rd v ≡ d = omega (arith, bit_and_field 5 7 v) in
    let ei : bit_and v 0xfffff000 >>> 12 ≡ imm = omega (arith, bit_and_field 20 12 v) in
    decode_at v (omega (arith, bit_and_ones 7 v)) ∙ dispatch_upper m v ∙ cc (ed, ei)

-- The word of every J-type object with rd below 32 and an even 21-bit immediate decodes to that
-- object.
pub decode-new_j :
    (m : JMnemo) (d imm : ℕ)
    → d < 32
    → imm < 2 ^ 21
    → imm % 2 ≡ 0
    → decode (new_j m d imm).val ≡ some (new_j m d imm)
decode-new_j m d imm hd hi even =
    let v = (new_j m d imm).val in
    let e = val-new_j m d imm hd in
    let o = j_opcode-eq m in
    let ed : rd v ≡ d = omega (arith, bit_and_field 5 7 v) in
    let ei : jump_offset v ≡ imm = j_imm_sum v (omega arith) ∙ omega arith in
    decode_at v (omega (arith, bit_and_ones 7 v)) ∙ dispatch_jump m v ∙ cc (ed, ei)
