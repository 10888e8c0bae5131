-- ===== src/Rip/Flow/Executes.antt =====
-- `exec` of lib/Instructions.cpp at an instruction of a straight program.
use rip_sim.Base.{
  ℕ, ◌+◌, ◌≡◌, ◌≢◌, refl, ◌∙◌, ok, none, some, true, false, ltb, ◌<◌, ◌==◌, arith, u64, update,
}
use rip_sim.Registers
use rip_sim.Insts
use rip_sim.Insts.{Instruction, Body, i_body, r_body, u_body, get_rd, get_rs1, get_rs2}
use rip_sim.Isa
use rip_sim.Isa.{Machine, write_next}
use rip_sim.Rip.Alu.{u_value}
use rip_sim.Rip.Agree.{r_value-r_result}
use rip_sim.Rip.Passing.{rd_of, rd_of-lt}
use rip_sim.Rip.SingleImmediate.{computes, i_instruction}
use rip_sim.Rip.SingleUpper.{u_step, u_instruction}
use rip_sim.Rip.Single.{r_instruction}
use rip_sim.Rip.Flow.Moves.{Plain, rs1_of, rs2_of}
use rip_sim.Rip.Flow.Retire.{apply}

-- The machine behind it.
abbrev pub executed : Instruction → Machine → Machine
executed i m = record m { regs = apply (some i) m.pc m.regs; pc = u64 (m.pc + 4) }

-- A write to the rd that the word names.
write_next_rd :
    (s : Machine) (rd v : ℕ)
    → rd ≢ 0
    → rd < 32
    → write_next s rd v ≡ ok (record s { regs = update s.regs rd v; pc = u64 (s.pc + 4) }, none)
unfolding write_next Registers.write
write_next_rd s rd v ne lt =
    let t : ltb rd 32 ≡ true = ground arith in
    let z : (rd == 0) ≡ false = ground arith in rw (t, z) refl

read-lt : (s : Machine) (r : ℕ) → r < 32 → Registers.read s.regs r ≡ ok (s.regs r)
unfolding Registers.read
read-lt s r lt = let t : ltb r 32 ≡ true = ground arith in rw t refl

pub exec-Plain :
    (b : Body) (word : ℕ) (s : Machine)
    → Plain (record { body = b; val = word })
    → Isa.exec b s ≡ ok (executed (record { body = b; val = word }) s, none)
unfolding Isa.exec Isa.r_exec get_rd get_rs1 get_rs2
exec-Plain (r_body m rd rs1 rs2) word s ((ne, l1, l2), (g, g1, g2)) =
    let i = r_instruction m rd rs1 rs2 word in
    let d : rd_of i ≡ rd = ground (arith, g) in
    let d1 : rs1_of i ≡ rs1 = ground (arith, g1) in
    let d2 : rs2_of i ≡ rs2 = ground (arith, g2) in
    let lt = rd_of-lt i in
    rw
      (
        read-lt s rs1 l1,
        read-lt s rs2 l2,
        write_next_rd s rd (Isa.r_result m (s.regs rs1) (s.regs rs2)) ne (omega arith),
        d,
        d1,
        d2,
        r_value-r_result m (s.regs rs1) (s.regs rs2),
      )
      refl
exec-Plain (i_body m rd rs1 imm) word s ((ne, l1, a, r), (g, g1, gi)) =
    let i = i_instruction m rd rs1 imm word in
    let d : rd_of i ≡ rd = ground (arith, g) in
    let d1 : rs1_of i ≡ rs1 = ground (arith, g1) in
    let c = computes m rd rs1 imm (s.regs rs1) s a r in
    let lt = rd_of-lt i in
    c.in_isa (read-lt s rs1 l1)
    ∙ write_next_rd s rd c.value ne (omega arith)
    ∙ rw (d, d1, c.in_pipeline) refl
exec-Plain (u_body m rd imm) word s ((ne, l), (g, gi)) =
    let i = u_instruction m rd imm word in
    let d : rd_of i ≡ rd = ground (arith, g) in
    let lt = rd_of-lt i in
    u_step m rd imm s.pc s refl
    ∙ write_next_rd s rd (u_value m s.pc (Insts.sign_extend 20 imm)) ne (omega arith)
    ∙ rw d refl
exec-Plain _ word s h = absurd h.0
