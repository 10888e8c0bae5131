-- ===== src/Rip/Flow/Moves.antt =====
-- What of the pipeline's state matters to such programs, and how a cycle of
-- lib/RIPSimulator/RIPSimulator.cpp changes it.
use rip_sim.Base.{
  ℕ, ◌+◌, ◌≡◌, ◌≢◌, ◌<◌, ◌^◌, ok, Result, Option, none, some, update, u64, bit_and, ◌>>>◌,
}
use rip_sim.Memory.{Memory}
use rip_sim.Registers.{Registers}
use rip_sim.Insts
use rip_sim.Insts.{Instruction, Body, r_body, i_body, u_body}
use rip_sim.Encoding.Reads.{Reads}
use rip_sim.Pipe.{if_stage, de_stage, ex_stage, ma_stage, wb_stage}
use rip_sim.Rip.State.{Rip}
use rip_sim.Rip.Alu.{r_value, i_value, u_value}
use rip_sim.Rip.Passing.{rd_of}
use rip_sim.Rip.SingleImmediate.{IsArithmetic, InRange}

-- The instructions of such programs: R-type, arithmetic I-type and U-type, with a destination other
-- than x0 and fields in range, and a word that carries the fields.
abbrev pub IsPlain : Body → Type 0
IsPlain (r_body m rd rs1 rs2) = (rd ≢ 0) × (rs1 < 32) × (rs2 < 32)
IsPlain (i_body m rd rs1 imm) = (rd ≢ 0) × (rs1 < 32) × IsArithmetic m × InRange m imm
IsPlain (u_body m rd imm) = (rd ≢ 0) × (imm < 2 ^ 20)
IsPlain _ = ⊥

abbrev pub Plain : Instruction → Type 0
Plain i = IsPlain i.body × Reads i i.body

-- A stage that holds one of them, or nothing.
abbrev pub Holds : Option Instruction → Type 0
Holds none = Unit
Holds (some i) = Plain i

pub record View : Type 0 where
  pub mem : Memory
  pub pc : ℕ
  pub regs : Registers
  pub if_inst : Option Instruction
  pub de_inst : Option Instruction
  pub ex_inst : Option Instruction
  pub ma_inst : Option Instruction
  pub wb_inst : Option Instruction
  pub if_pc : ℕ
  pub de_pc : ℕ
  pub ex_pc : ℕ
  pub de_rs1 : ℕ
  pub de_rs2 : ℕ
  pub de_imm : ℕ
  pub ex_rd : ℕ
  pub ma_rd : ℕ

abbrev pub view : Rip → View
view s = record {
  mem = s.mem;
  pc = s.pc;
  regs = s.regs;
  if_inst = s.ps.insts if_stage;
  de_inst = s.ps.insts de_stage;
  ex_inst = s.ps.insts ex_stage;
  ma_inst = s.ps.insts ma_stage;
  wb_inst = s.ps.insts wb_stage;
  if_pc = s.ps.pcs if_stage;
  de_pc = s.ps.pcs de_stage;
  ex_pc = s.ps.pcs ex_stage;
  de_rs1 = s.ps.de_rs1_val;
  de_rs2 = s.ps.de_rs2_val;
  de_imm = s.ps.de_imm_val;
  ex_rd = s.ps.ex_rd_val;
  ma_rd = s.ps.ma_rd_val;
}

-- The operands that the word names, and the extended immediate.
abbrev pub rs1_of : Instruction → ℕ
rs1_of i = bit_and i.val 0x000f8000 >>> 15

abbrev pub rs2_of : Instruction → ℕ
rs2_of i = bit_and i.val 0x01f00000 >>> 20

abbrev pub imm_of : Body → ℕ
imm_of (i_body m rd rs1 imm) = Insts.sign_extend 12 imm
imm_of (u_body m rd imm) = Insts.sign_extend 20 imm
imm_of _ = 0

-- The immediate of the instruction of a stage is latched.
abbrev pub Latched : Option Instruction → ℕ → Type 0
Latched none v = Unit
Latched (some i) v = v ≡ imm_of i.body

-- The result in EX, from the operands, the immediate and the address.
abbrev pub or_zero : Option (Result ℕ) → ℕ
or_zero (some (ok v)) = v
or_zero _ = 0

abbrev pub result : Body → ℕ → ℕ → ℕ → ℕ → ℕ
result (r_body m rd rs1 rs2) a b imm pc = r_value m a b
result (i_body m rd rs1 i) a b imm pc = or_zero (i_value m a imm)
result (u_body m rd i) a b imm pc = u_value m pc imm
result _ a b imm pc = 0

-- The registers with the result `v` of the instruction of a stage.
abbrev pub put : Option Instruction → ℕ → Registers → Registers
put none v r = r
put (some i) v r = update r (rd_of i) v

-- A latch that a stage with an instruction sets.
abbrev pub set : Option Instruction → ℕ → ℕ → ℕ
set none new old = old
set (some i) new old = new

-- The instruction of IF is moved on, and `o` is fetched.
abbrev pub next_pc : Option Instruction → ℕ → ℕ
next_pc none pc = pc
next_pc (some i) pc = u64 (pc + 4)

abbrev pub fetch : Option Instruction → View → View
fetch o v = record v {
  pc = next_pc o v.pc;
  if_inst = o;
  de_inst = v.if_inst;
  ex_inst = v.de_inst;
  ma_inst = v.ex_inst;
  wb_inst = v.ma_inst;
  if_pc = v.pc;
  de_pc = v.if_pc;
  ex_pc = v.de_pc;
}

abbrev pub writeback : View → View
writeback v = record v { regs = put v.wb_inst v.ma_rd v.regs }

abbrev pub memoryaccess : View → View
memoryaccess v = record v { ma_rd = set v.ma_inst v.ex_rd v.ma_rd }

abbrev pub result_at : Option Instruction → ℕ → ℕ → ℕ → ℕ → ℕ
result_at none a b imm pc = 0
result_at (some i) a b imm pc = result i.body a b imm pc

abbrev pub exec : View → View
exec v = record v {
  ex_rd = set v.ex_inst (result_at v.ex_inst v.de_rs1 v.de_rs2 v.de_imm v.ex_pc) v.ex_rd;
}

-- What the registers hold once MA and EX have retired.
abbrev pub forwarded : View → Registers
forwarded v = put v.ex_inst v.ex_rd (put v.ma_inst v.ma_rd v.regs)

-- The latches that each class sets in DE.
abbrev pub latch_rs1 : Body → ℕ → ℕ → ℕ
latch_rs1 (u_body m rd imm) a old = old
latch_rs1 _ a old = a

abbrev pub latch_rs2 : Body → ℕ → ℕ → ℕ
latch_rs2 (r_body m rd rs1 rs2) b old = b
latch_rs2 _ b old = old

abbrev pub decode_rs1 : Option Instruction → View → ℕ
decode_rs1 none v = v.de_rs1
decode_rs1 (some i) v = latch_rs1 i.body (forwarded v (rs1_of i)) v.de_rs1

abbrev pub decode_rs2 : Option Instruction → View → ℕ
decode_rs2 none v = v.de_rs2
decode_rs2 (some i) v = latch_rs2 i.body (forwarded v (rs2_of i)) v.de_rs2

abbrev pub decode_imm : Option Instruction → View → ℕ
decode_imm none v = v.de_imm
decode_imm (some i) v = imm_of i.body

abbrev pub decode_inst : Option Instruction → View → View
decode_inst o v = record v {
  de_rs1 = decode_rs1 o v;
  de_rs2 = decode_rs2 o v;
  de_imm = decode_imm o v;
}

abbrev pub decode : View → View
decode v = decode_inst v.de_inst v

abbrev pub cycle : Option Instruction → View → View
cycle o v = decode (exec (memoryaccess (writeback (fetch o v))))
