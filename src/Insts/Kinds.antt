-- ===== src/Insts/Kinds.antt =====
-- The tables of include/InstructionTypes.h.
use rip_sim.Base.{ℕ}

-- The keys of `ITypeKinds`, `RTypeKinds`, `STypeKinds`, `BTypeKinds`, `UTypeKinds`, `JTypeKinds`.
pub data IMnemo : Type 0 where
  addi slti sltiu xori ori andi jalr lb lh lw lbu lhu slli srli srai : IMnemo
  csrrw csrrs csrrc csrrwi csrrsi csrrci : IMnemo
  ecall ebreak uret sret mret ext extx : IMnemo

pub data RMnemo : Type 0 where
  add sub sll slt sltu xor srl sra or and mul mulh mulhsu mulhu div divu rem remu : RMnemo

pub data SMnemo : Type 0 where
  sb sh sw : SMnemo

pub data BMnemo : Type 0 where
  beq bne blt bge bltu bgeu : BMnemo

pub data UMnemo : Type 0 where
  lui auipc : UMnemo

pub data JMnemo : Type 0 where
  jal : JMnemo

abbrev pub i_funct3 : IMnemo → ℕ
i_funct3 addi = 0b000
i_funct3 slti = 0b010
i_funct3 sltiu = 0b011
i_funct3 xori = 0b100
i_funct3 ori = 0b110
i_funct3 andi = 0b111
i_funct3 jalr = 0b000
i_funct3 lb = 0b000
i_funct3 lh = 0b001
i_funct3 lw = 0b010
i_funct3 lbu = 0b100
i_funct3 lhu = 0b101
i_funct3 slli = 0b001
i_funct3 srli = 0b101
i_funct3 srai = 0b101
i_funct3 csrrw = 0b001
i_funct3 csrrs = 0b010
i_funct3 csrrc = 0b011
i_funct3 csrrwi = 0b101
i_funct3 csrrsi = 0b110
i_funct3 csrrci = 0b111
i_funct3 _ = 0b000

abbrev pub i_opcode : IMnemo → ℕ
i_opcode jalr = 0b1100111
i_opcode lb = 0b0000011
i_opcode lh = 0b0000011
i_opcode lw = 0b0000011
i_opcode lbu = 0b0000011
i_opcode lhu = 0b0000011
i_opcode csrrw = 0b1110011
i_opcode csrrs = 0b1110011
i_opcode csrrc = 0b1110011
i_opcode csrrwi = 0b1110011
i_opcode csrrsi = 0b1110011
i_opcode csrrci = 0b1110011
i_opcode ecall = 0b1110011
i_opcode ebreak = 0b1110011
i_opcode uret = 0b1110011
i_opcode sret = 0b1110011
i_opcode mret = 0b1110011
i_opcode ext = 0b0001011
i_opcode extx = 0b0001011
i_opcode _ = 0b0010011

abbrev pub s_funct3 : SMnemo → ℕ
s_funct3 sb = 0b000
s_funct3 sh = 0b001
s_funct3 sw = 0b010

abbrev pub s_opcode : ℕ
s_opcode = 0b0100011

abbrev pub b_funct3 : BMnemo → ℕ
b_funct3 beq = 0b000
b_funct3 bne = 0b001
b_funct3 blt = 0b100
b_funct3 bge = 0b101
b_funct3 bltu = 0b110
b_funct3 bgeu = 0b111

abbrev pub b_opcode : ℕ
b_opcode = 0b1100011

abbrev pub r_funct7 : RMnemo → ℕ
r_funct7 sub = 0b0100000
r_funct7 sra = 0b0100000
r_funct7 mul = 0b0000001
r_funct7 mulh = 0b0000001
r_funct7 mulhsu = 0b0000001
r_funct7 mulhu = 0b0000001
r_funct7 div = 0b0000001
r_funct7 divu = 0b0000001
r_funct7 rem = 0b0000001
r_funct7 remu = 0b0000001
r_funct7 _ = 0b0000000

abbrev pub r_funct3 : RMnemo → ℕ
r_funct3 add = 0b000
r_funct3 sub = 0b000
r_funct3 sll = 0b001
r_funct3 slt = 0b010
r_funct3 sltu = 0b011
r_funct3 xor = 0b100
r_funct3 srl = 0b101
r_funct3 sra = 0b101
r_funct3 or = 0b110
r_funct3 and = 0b111
r_funct3 mul = 0b000
r_funct3 mulh = 0b001
r_funct3 mulhsu = 0b010
r_funct3 mulhu = 0b011
r_funct3 div = 0b100
r_funct3 divu = 0b101
r_funct3 rem = 0b110
r_funct3 remu = 0b111

abbrev pub r_opcode : ℕ
r_opcode = 0b0110011

abbrev pub u_opcode : UMnemo → ℕ
u_opcode lui = 0b0110111
u_opcode auipc = 0b0010111

abbrev pub j_opcode : JMnemo → ℕ
j_opcode jal = 0b1101111
