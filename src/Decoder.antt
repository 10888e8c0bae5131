-- ===== src/Decoder.antt =====
-- lib/Decoder.cpp: from a 32-bit word to an instruction. `none` is the null pointer.
pub mod Ranges
pub mod Fields
pub mod Classes
pub mod Coherent
pub mod RoundTrip
pub mod Immediate
pub mod Encodes
use rip_sim.Base.{
  ℕ, ◌+◌, ◌*◌, ◌^◌, bit_and, bit_or, Bool, ◌&&◌, ◌==◌, if◌then◌else◌, u32, ◌<<<◌, ◌>>>◌, Option,
  none, some,
}
use rip_sim.Insts.{
  Instruction, new_i, new_r, new_u, new_j, new_s, new_b, addi, slti, sltiu, xori, ori, andi, jalr,
  lb, lh, lw, lbu, lhu, slli, srli, srai, csrrw, csrrs, csrrc, csrrwi, csrrsi, csrrci, ecall,
  ebreak, uret, sret, mret, ext, extx, add, sub, sll, slt, sltu, xor, srl, sra, or, and, mul, mulh,
  mulhsu, mulhu, div, divu, rem, remu, sb, sh, sw, beq, bne, blt, bge, bltu, bgeu, lui, auipc, jal,
  IMnemo, RMnemo, BMnemo,
}

-- The locals at the head of `decode`.
abbrev pub opcode : ℕ → ℕ
opcode inst_val = bit_and inst_val 0x0000007f

abbrev pub rd : ℕ → ℕ
rd inst_val = bit_and inst_val 0x00000f80 >>> 7

abbrev pub rs1 : ℕ → ℕ
rs1 inst_val = bit_and inst_val 0x000f8000 >>> 15

abbrev pub rs2 : ℕ → ℕ
rs2 inst_val = bit_and inst_val 0x01f00000 >>> 20

abbrev pub funct3 : ℕ → ℕ
funct3 inst_val = bit_and inst_val 0x00007000 >>> 12

abbrev pub funct7 : ℕ → ℕ
funct7 inst_val = bit_and inst_val 0xfe000000 >>> 25

-- The I-type object of a word, with the immediate `imm`.
abbrev i_type : ℕ → IMnemo → ℕ → Option Instruction
i_type w m imm = some (new_i m (rd w) (rs1 w) imm)

abbrev r_type : ℕ → RMnemo → Option Instruction
r_type w m = some (new_r m (rd w) (rs1 w) (rs2 w))

-- One definition for each opcode of the switch.
unfoldable pub decode_load : ℕ → ℕ → Option Instruction
decode_load f3 w =
    if f3 == 0b000
    then i_type w lb (w >>> 20)
    else if f3 == 0b001
    then i_type w lh (w >>> 20)
    else if f3 == 0b010
    then i_type w lw (w >>> 20)
    else if f3 == 0b100
    then i_type w lbu (w >>> 20)
    else if f3 == 0b101
    then i_type w lhu (w >>> 20)
    else none

unfoldable pub decode_extended : ℕ → Option Instruction
decode_extended w =
    if rs2 w == 0
    then some (new_i extx 0 0 0)
    else if rs2 w == 1
    then some (new_i ext 0 0 0)
    else none

unfoldable pub decode_fence : ℕ → ℕ → Option Instruction
decode_fence f3 w =
    if f3 == 0b000 then i_type w addi 0 else if f3 == 0b001 then i_type w addi 0 else none

unfoldable pub decode_op : ℕ → ℕ → ℕ → Option Instruction
decode_op f3 f7 w =
    if f3 == 0b000 && f7 == 0b0000000
    then r_type w add
    else if f3 == 0b000 && f7 == 0b0100000
    then r_type w sub
    else if f3 == 0b001 && f7 == 0b0000000
    then r_type w sll
    else if f3 == 0b010 && f7 == 0b0000000
    then r_type w slt
    else if f3 == 0b011 && f7 == 0b0000000
    then r_type w sltu
    else if f3 == 0b101 && f7 == 0b0000000
    then r_type w srl
    else if f3 == 0b101 && f7 == 0b0100000
    then r_type w sra
    else if f3 == 0b110 && f7 == 0b0000000
    then r_type w or
    else if f3 == 0b111 && f7 == 0b0000000
    then r_type w and
    else if f3 == 0b000 && f7 == 0b0000001
    then r_type w mul
    else if f3 == 0b001 && f7 == 0b0000001
    then r_type w mulh
    else if f3 == 0b010 && f7 == 0b0000001
    then r_type w mulhsu
    else if f3 == 0b011 && f7 == 0b0000001
    then r_type w mulhu
    else if f3 == 0b100 && f7 == 0b0000000
    then r_type w xor
    else if f3 == 0b100 && f7 == 0b0000001
    then r_type w div
    else if f3 == 0b101 && f7 == 0b0000001
    then r_type w divu
    else if f3 == 0b110 && f7 == 0b0000001
    then r_type w rem
    else if f3 == 0b111 && f7 == 0b0000001
    then r_type w remu
    else none

unfoldable pub decode_op_imm : ℕ → ℕ → ℕ → Option Instruction
decode_op_imm f3 f7 w =
    if f3 == 0b000
    then i_type w addi (w >>> 20)
    else if f3 == 0b010
    then i_type w slti (w >>> 20)
    else if f3 == 0b011
    then i_type w sltiu (w >>> 20)
    else if f3 == 0b100
    then i_type w xori (w >>> 20)
    else if f3 == 0b110
    then i_type w ori (w >>> 20)
    else if f3 == 0b111
    then i_type w andi (w >>> 20)
    else if f3 == 0b001
    then i_type w slli (w >>> 20)
    else if f3 == 0b101
    then (if f7 == 0
        then i_type w srli (bit_and (w >>> 20) 0b11111)
        else i_type w srai (bit_and (w >>> 20) 0b11111))
    else none

-- offset[11:5|4:0] = inst[31:25|11:7]
abbrev pub store_offset : ℕ → ℕ
store_offset w = bit_or (bit_and w 0xfe000000 >>> 20) (bit_and (w >>> 7) 0x1f)

unfoldable pub decode_store : ℕ → ℕ → Option Instruction
decode_store f3 w =
    if f3 == 0b000
    then some (new_s sb (rs1 w) (rs2 w) (store_offset w))
    else if f3 == 0b001
    then some (new_s sh (rs1 w) (rs2 w) (store_offset w))
    else if f3 == 0b010
    then some (new_s sw (rs1 w) (rs2 w) (store_offset w))
    else none

-- imm[12|11|10:5|4:1] = inst[31|7|30:25|11:8]
abbrev pub branch_offset : ℕ → ℕ
branch_offset w =
    bit_or
      (bit_or (bit_or (bit_and w 0x80000000 >>> 19) (u32 (bit_and w 0x80 <<< 4)))
        (bit_and (w >>> 20) 0x7e0))
      (bit_and (w >>> 7) 0x1e)

abbrev b_type : ℕ → BMnemo → Option Instruction
b_type w m = some (new_b m (rs1 w) (rs2 w) (branch_offset w))

-- The inner switch has no default: `InstPtr` stays null.
unfoldable pub decode_branch : ℕ → ℕ → Option Instruction
decode_branch f3 w =
    if f3 == 0b000
    then b_type w beq
    else if f3 == 0b001
    then b_type w bne
    else if f3 == 0b100
    then b_type w blt
    else if f3 == 0b101
    then b_type w bge
    else if f3 == 0b110
    then b_type w bltu
    else if f3 == 0b111
    then b_type w bgeu
    else none

-- imm[20|10:1|11|19:12] = inst[31|30:21|20|19:12]
abbrev pub jump_offset : ℕ → ℕ
jump_offset w =
    bit_or
      (bit_or (bit_or (bit_and w 0x80000000 >>> 11) (bit_and w 0xff000)) (bit_and (w >>> 9) 0x800))
      (bit_and (w >>> 20) 0x7fe)

unfoldable pub decode_system : ℕ → ℕ → ℕ → Option Instruction
decode_system f3 funct12 w =
    if f3 == 0b000
    then (if funct12 == 0
        then i_type w ecall (w >>> 20)
        else if funct12 == 1
        then i_type w ebreak (w >>> 20)
        else if funct12 == 2
        then i_type w uret (w >>> 20)
        else if funct12 == 0b100000010
        then i_type w sret (w >>> 20)
        else if funct12 == 0b1100000010
        then i_type w mret (w >>> 20)
        else none)
    else if f3 == 0b001
    then i_type w csrrw (w >>> 20)
    else if f3 == 0b010
    then i_type w csrrs (w >>> 20)
    else if f3 == 0b011
    then i_type w csrrc (w >>> 20)
    else if f3 == 0b101
    then i_type w csrrwi (w >>> 20)
    else if f3 == 0b110
    then i_type w csrrsi (w >>> 20)
    else if f3 == 0b111
    then i_type w csrrci (w >>> 20)
    else none

-- The switch.
unfoldable pub dispatch : ℕ → ℕ → Option Instruction
unfolding decode_load decode_extended decode_fence decode_op decode_op_imm decode_store
    decode_branch decode_system
dispatch op w =
    if op == 0b0000011
    then decode_load (funct3 w) w
    else if op == 0b0001011
    then decode_extended w
    else if op == 0b0001111
    then decode_fence (funct3 w) w
    else if op == 0b0010111
    then some (new_u auipc (rd w) (bit_and w 0xfffff000 >>> 12))
    else if op == 0b0110011
    then decode_op (funct3 w) (funct7 w) w
    else if op == 0b0010011
    then decode_op_imm (funct3 w) (funct7 w) w
    else if op == 0b0110111
    then some (new_u lui (rd w) (bit_and w 0xfffff000 >>> 12))
    else if op == 0b1100111
    then i_type w jalr (w >>> 20)
    else if op == 0b0100011
    then decode_store (funct3 w) w
    else if op == 0b1100011
    then decode_branch (funct3 w) w
    else if op == 0b1101111
    then some (new_j jal (rd w) (jump_offset w))
    else if op == 0b1110011
    then decode_system (funct3 w) (bit_or (funct7 w <<< 5) (rs2 w)) w
    else none

unfoldable pub decode : ℕ → Option Instruction
decode inst_val = dispatch (opcode inst_val) inst_val
