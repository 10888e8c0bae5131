-- ===== src/Decoder/Immediate.antt =====
-- The same for I-type objects, with those that the decoder cannot give back.
use rip_sim.Base.{
  if◌then◌else◌, ◌==◌, ltb, ◌%◌, ◌/◌, Option, none, ℕ, ◌^◌, ◌<◌, ◌↔◌, ◌≡◌, refl, arith, ap, ◌∙◌,
  some, bit_and_field, ◌>>>◌, ◌<<<◌, bit_and_ones, bit_and, bit_or, bit_or_disjoint,
}
use rip_sim.Insts.{
  Instruction, IMnemo, new_i, i_opcode, i_funct3, jalr, srli, srai, ecall, ebreak, uret, sret, mret,
  ext, extx,
}
use rip_sim.Encoding.Sums.{val-new_i, i_funct3-lt, i_opcode-lt}
use rip_sim.Decoder.{
  decode, decode_op_imm, decode_extended, dispatch, opcode, rd, rs1, rs2, funct3, funct7,
}

-- What the word of an I-type object means to the decoder. srli and srai have one word: its upper
-- seven bits tell which of them the decoder builds, with the lower five as the shift amount.
abbrev shift_right : ℕ → ℕ → ℕ → Instruction
shift_right d a imm = if ltb imm 32 then new_i srli d a imm else new_i srai d a (imm % 32)

-- The five instructions of the system with funct3 0 have one word too, and the immediate tells
-- them apart.
abbrev system_call : ℕ → ℕ → ℕ → Option Instruction
system_call d a imm =
    if imm == 0
    then some (new_i ecall d a imm)
    else if imm == 1
    then some (new_i ebreak d a imm)
    else if imm == 2
    then some (new_i uret d a imm)
    else if imm == 0b100000010
    then some (new_i sret d a imm)
    else if imm == 0b1100000010
    then some (new_i mret d a imm)
    else none

-- ext and extx: the lower five bits of the immediate tell them apart, and every field is cleared.
abbrev extended : ℕ → Option Instruction
extended imm =
    if imm % 32 == 0
    then some (new_i extx 0 0 0)
    else if imm % 32 == 1
    then some (new_i ext 0 0 0)
    else none

abbrev pub decoded_i : IMnemo → ℕ → ℕ → ℕ → Option Instruction
decoded_i srli d a imm = some (shift_right d a imm)
decoded_i srai d a imm = some (shift_right d a imm)
decoded_i ecall d a imm = system_call d a imm
decoded_i ebreak d a imm = system_call d a imm
decoded_i uret d a imm = system_call d a imm
decoded_i sret d a imm = system_call d a imm
decoded_i mret d a imm = system_call d a imm
decoded_i ext d a imm = extended imm
decoded_i extx d a imm = extended imm
decoded_i m d a imm = some (new_i m d a imm)

funct12-eq : (w : ℕ) → w < 2 ^ 32 → bit_or (funct7 w <<< 5) (rs2 w) ≡ w >>> 20
funct12-eq w h =
    let e7 = bit_and_field 7 25 w in
    let e5 = bit_and_field 5 20 w in
    bit_or_disjoint 5 (funct7 w <<< 5) (rs2 w) (omega arith) (omega arith) ∙ omega arith

module _ (w : ℕ) (fits : w < 2 ^ 32) where
  shift_right_lem : decode_op_imm 0b101 (funct7 w) w ≡ some (shift_right (rd w) (rs1 w) (w >>> 20))
  unfolding decode_op_imm
  shift_right_lem =
      let e7 = bit_and_field 7 25 w in
      let e5 = bit_and_ones 5 (w >>> 20) in
      let low : bit_and (w >>> 20) 0b11111 ≡ (w >>> 20) % 32 = omega arith in
      let upper : funct7 w ≡ (w >>> 20) / 32 = omega arith in rw (low, upper) ground arith

  extended_lem : decode_extended w ≡ extended (w >>> 20)
  unfolding decode_extended
  extended_lem =
      let low : rs2 w ≡ (w >>> 20) % 32 = omega (arith, bit_and_field 5 20 w) in rw low refl

  dispatch_i :
      (m : IMnemo)
      → funct3 w ≡ i_funct3 m
      → dispatch (i_opcode m) w ≡ decoded_i m (rd w) (rs1 w) (w >>> 20)
  unfolding dispatch
  dispatch_i srli e3 = rw e3 shift_right_lem
  dispatch_i srai e3 = rw e3 shift_right_lem
  dispatch_i ext e3 = extended_lem
  dispatch_i extx e3 = extended_lem
  dispatch_i ecall e3 = rw (e3, funct12-eq w fits)
  dispatch_i ebreak e3 = rw (e3, funct12-eq w fits)
  dispatch_i uret e3 = rw (e3, funct12-eq w fits)
  dispatch_i sret e3 = rw (e3, funct12-eq w fits)
  dispatch_i mret e3 = rw (e3, funct12-eq w fits)
  dispatch_i jalr e3 = refl
  dispatch_i _ e3 = rw e3

-- The word of an I-type object with fields in range decodes to what `decoded_i` says.
pub decode-new_i :
    (m : IMnemo) (d a imm : ℕ)
    → d < 32
    → a < 32
    → imm < 2 ^ 12
    → decode (new_i m d a imm).val ≡ decoded_i m d a imm
unfolding decode
decode-new_i m d a imm hd ha hi =
    let v = (new_i m d a imm).val in
    let e = val-new_i m d a imm in
    let f3 = i_funct3-lt m in
    let o = i_opcode-lt m in
    let e3 : funct3 v ≡ i_funct3 m = omega (arith, bit_and_field 3 12 v) in
    let ed : rd v ≡ d = omega (arith, bit_and_field 5 7 v) in
    let ea : rs1 v ≡ a = omega (arith, bit_and_field 5 15 v) in
    let ei : v >>> 20 ≡ imm = omega arith in
    let eo : opcode v ≡ i_opcode m = omega (arith, bit_and_ones 7 v) in
    ap (λ k. dispatch k v) eo ∙ dispatch_i v (omega arith) m e3 ∙ rw (ed, ea, ei) refl

-- The fields with which an I-type object is what the decoder makes of its word.
abbrev pub IsKept : IMnemo → ℕ → ℕ → ℕ → Type 0
IsKept srli d a imm = imm < 32
IsKept srai d a imm = ⊥
IsKept ecall d a imm = imm ≡ 0
IsKept ebreak d a imm = imm ≡ 1
IsKept uret d a imm = imm ≡ 2
IsKept sret d a imm = imm ≡ 0b100000010
IsKept mret d a imm = imm ≡ 0b1100000010
IsKept ext d a imm = ⊥
IsKept extx d a imm = (d ≡ 0) × (a ≡ 0) × (imm ≡ 0)
IsKept _ d a imm = Unit

decoded_i_iff :
    (m : IMnemo) (d a imm : ℕ)
    → d < 32
    → a < 32
    → imm < 2 ^ 12
    → (decoded_i m d a imm ≡ some (new_i m d a imm)) ↔ IsKept m d a imm
unfolding new_i
decoded_i_iff srli d a imm hd ha hi = (λ e. ground arith, λ h. ground arith)
decoded_i_iff srai d a imm hd ha hi = (λ e. ground arith, λ h. absurd h)
decoded_i_iff ecall d a imm hd ha hi = (λ e. ground arith, λ h. rw h refl)
decoded_i_iff ebreak d a imm hd ha hi = (λ e. ground arith, λ h. rw h refl)
decoded_i_iff uret d a imm hd ha hi = (λ e. ground arith, λ h. rw h refl)
decoded_i_iff sret d a imm hd ha hi = (λ e. ground arith, λ h. rw h refl)
decoded_i_iff mret d a imm hd ha hi = (λ e. ground arith, λ h. rw h refl)
decoded_i_iff ext d a imm hd ha hi = (λ e. ground arith, λ h. absurd h)
decoded_i_iff extx d a imm hd ha hi = (λ e. ground arith, λ h. rw (h.0, h.1, h.2) refl)
decoded_i_iff _ d a imm hd ha hi = (λ e. tt, λ h. refl)

-- An I-type object with fields in range is what its word decodes to exactly when it is not of srai
-- or ext, and: of srli only with an immediate below 32, of ecall, ebreak, uret, sret and mret only
-- with the immediate 0, 1, 2, 258 or 770 of that instruction, and of extx only with all fields 0.
pub decode-new_i_iff :
    (m : IMnemo) (d a imm : ℕ)
    → d < 32
    → a < 32
    → imm < 2 ^ 12
    → (decode (new_i m d a imm).val ≡ some (new_i m d a imm)) ↔ IsKept m d a imm
decode-new_i_iff m d a imm hd ha hi =
    rw (decode-new_i m d a imm hd ha hi) (decoded_i_iff m d a imm hd ha hi)

-- The word of a srai object, with registers and shift amount below 32, decodes to srli with the
-- same fields: the constructor that the decoder calls drops bit 30.
pub decode-new_i_srai :
    (d a imm : ℕ)
    → d < 32
    → a < 32
    → imm < 32
    → decode (new_i srai d a imm).val ≡ some (new_i srli d a imm)
decode-new_i_srai d a imm hd ha hi = decode-new_i srai d a imm hd ha (omega arith) ∙ ground arith
