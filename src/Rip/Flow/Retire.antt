-- ===== src/Rip/Flow/Retire.antt =====
-- What the registers hold once the instructions in the pipeline of lib/RIPSimulator/RIPSimulator.cpp
-- have retired.
use rip_sim.Base.{ℕ, ◌≡◌, refl, ap, ◌∙◌, Option, none, some, update}
use rip_sim.Registers.{Registers}
use rip_sim.Insts.{Instruction, Body, i_body, r_body, u_body}
use rip_sim.Rip.Passing.{rd_of}
use rip_sim.Rip.Flow.Moves
use rip_sim.Rip.Flow.Moves.{
  View, Holds, Latched, put, set, result, result_at, imm_of, rs1_of, rs2_of, forwarded, latch_rs1,
  latch_rs2, cycle, decode_rs1, decode_rs2, decode_imm,
}

-- An instruction at the address `pc`, on the register file.
abbrev pub apply : Option Instruction → ℕ → Registers → Registers
apply none pc r = r
apply (some i) pc r =
    update r (rd_of i) (result i.body (r (rs1_of i)) (r (rs2_of i)) (imm_of i.body) pc)

abbrev after_de : View → Registers
after_de v = put v.de_inst (result_at v.de_inst v.de_rs1 v.de_rs2 v.de_imm v.de_pc) (forwarded v)

abbrev pub retired : View → Registers
retired v = apply v.if_inst v.if_pc (after_de v)

put-set :
    (o : Option Instruction) (new old : ℕ) (r : Registers) → put o (set o new old) r ≡ put o new r
put-set none new old r = refl
put-set (some i) new old r = refl

-- The operands that a class does not latch do not matter.
result-latch :
    (b : Body) (x y old1 old2 imm pc : ℕ)
    → result b (latch_rs1 b x old1) (latch_rs2 b y old2) imm pc ≡ result b x y imm pc
result-latch (r_body m rd rs1 rs2) x y old1 old2 imm pc = refl
result-latch (i_body m rd rs1 i) x y old1 old2 imm pc = refl
result-latch (u_body m rd i) x y old1 old2 imm pc = refl
result-latch _ x y old1 old2 imm pc = refl

-- Behind decode, the result in DE is that on the registers that decode sees.
put-decode :
    (o : Option Instruction) (v : View) (pc : ℕ)
    → put o (result_at o (decode_rs1 o v) (decode_rs2 o v) (decode_imm o v) pc) (forwarded v)
      ≡ apply o pc (forwarded v)
put-decode none v pc = refl
put-decode (some i) v pc = ap (update (forwarded v) (rd_of i)) (
    result-latch i.body (forwarded v (rs1_of i)) (forwarded v (rs2_of i)) v.de_rs1 v.de_rs2
      (imm_of i.body) pc)

-- The view from which decode starts.
abbrev before_decode : Option Instruction → View → View
before_decode o v = Moves.exec (Moves.memoryaccess (Moves.writeback (Moves.fetch o v)))

forwarded-before_decode :
    (o : Option Instruction) (v : View) → forwarded (before_decode o v) ≡ after_de v
forwarded-before_decode o v =
    let r = put v.ma_inst v.ma_rd v.regs in
    let x = result_at v.de_inst v.de_rs1 v.de_rs2 v.de_imm v.de_pc in
    put-set v.de_inst x v.ex_rd (put v.ex_inst (set v.ex_inst v.ex_rd v.ma_rd) r)
    ∙ ap (put v.de_inst x) (put-set v.ex_inst v.ex_rd v.ma_rd r)

-- A cycle that fetches an instruction adds it to those that will have retired.
pub retired-cycle :
    (o : Option Instruction) (v : View) → retired (cycle o v) ≡ apply o v.pc (retired v)
retired-cycle o v = ap (apply o v.pc) (
    put-decode v.if_inst (before_decode o v) v.if_pc
    ∙ ap (apply v.if_inst v.if_pc) (forwarded-before_decode o v))

-- The stages hold instructions of a straight program, or nothing.
abbrev pub Straight : View → Type 0
Straight v =
    Holds v.if_inst
    × Holds v.de_inst
    × Holds v.ex_inst
    × Holds v.ma_inst
    × Latched v.de_inst v.de_imm

decode_imm-Latched : (o : Option Instruction) (v : View) → Latched o (decode_imm o v)
decode_imm-Latched none v = tt
decode_imm-Latched (some i) v = refl

pub cycle-Straight :
    (o : Option Instruction) (v : View) → Holds o → Straight v → Straight (cycle o v)
cycle-Straight o v h s = (h, s.0, s.1, s.2, decode_imm-Latched v.if_inst (before_decode o v))
