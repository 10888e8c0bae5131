-- ===== src/Stats/Names.antt =====
-- `getMnemo` of the instruction classes: the names of include/InstructionTypes.h.
use Prim.Native.String.{String}
use rip_sim.Insts.{
  Body, i_body, r_body, u_body, j_body, s_body, b_body, IMnemo, RMnemo, SMnemo, BMnemo, UMnemo,
  JMnemo, addi, slti, sltiu, xori, ori, andi, jalr, lb, lh, lw, lbu, lhu, slli, srli, srai, csrrw,
  csrrs, csrrc, csrrwi, csrrsi, csrrci, ecall, ebreak, uret, sret, mret, ext, extx, add, sub, sll,
  slt, sltu, xor, srl, sra, or, and, mul, mulh, mulhsu, mulhu, div, divu, rem, remu, sb, sh, sw,
  beq, bne, blt, bge, bltu, bgeu, lui, auipc, jal,
}

unfoldable pub i_name : IMnemo → String
i_name addi = "addi"
i_name slti = "slti"
i_name sltiu = "sltiu"
i_name xori = "xori"
i_name ori = "ori"
i_name andi = "andi"
i_name jalr = "jalr"
i_name lb = "lb"
i_name lh = "lh"
i_name lw = "lw"
i_name lbu = "lbu"
i_name lhu = "lhu"
i_name slli = "slli"
i_name srli = "srli"
i_name srai = "srai"
i_name csrrw = "csrrw"
i_name csrrs = "csrrs"
i_name csrrc = "csrrc"
i_name csrrwi = "csrrwi"
i_name csrrsi = "csrrsi"
i_name csrrci = "csrrci"
i_name ecall = "ecall"
i_name ebreak = "ebreak"
i_name uret = "uret"
i_name sret = "sret"
i_name mret = "mret"
i_name ext = "ext"
i_name extx = "extx"

unfoldable pub r_name : RMnemo → String
r_name add = "add"
r_name sub = "sub"
r_name sll = "sll"
r_name slt = "slt"
r_name sltu = "sltu"
r_name xor = "xor"
r_name srl = "srl"
r_name sra = "sra"
r_name or = "or"
r_name and = "and"
r_name mul = "mul"
r_name mulh = "mulh"
r_name mulhsu = "mulhsu"
r_name mulhu = "mulhu"
r_name div = "div"
r_name divu = "divu"
r_name rem = "rem"
r_name remu = "remu"

unfoldable pub s_name : SMnemo → String
s_name sb = "sb"
s_name sh = "sh"
s_name sw = "sw"

unfoldable pub b_name : BMnemo → String
b_name beq = "beq"
b_name bne = "bne"
b_name blt = "blt"
b_name bge = "bge"
b_name bltu = "bltu"
b_name bgeu = "bgeu"

unfoldable pub u_name : UMnemo → String
u_name lui = "lui"
u_name auipc = "auipc"

unfoldable pub j_name : JMnemo → String
j_name jal = "jal"

unfoldable pub mnemo : Body → String
unfolding i_name r_name s_name b_name u_name j_name
mnemo (i_body m rd rs1 imm) = i_name m
mnemo (r_body m rd rs1 rs2) = r_name m
mnemo (u_body m rd imm) = u_name m
mnemo (j_body m rd imm) = j_name m
mnemo (s_body m rs1 rs2 imm) = s_name m
mnemo (b_body m rs1 rs2 imm) = b_name m
