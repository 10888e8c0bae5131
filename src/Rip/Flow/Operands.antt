-- ===== src/Rip/Flow/Operands.antt =====
-- EX and DE of lib/RIPSimulator/RIPSimulator.cpp at an instruction that computes a register.
use rip_sim.Base.{
  ℕ, ◌≡◌, ◌<◌, refl, ap, ◌∙◌, sym, arith, ok, Result, ◌>>=◌, Option, none, some, Bool, false,
  if◌then◌else◌, bit_and, ◌>>>◌, bit_and_field,
}
use rip_sim.Exceptions.{Exception}
use rip_sim.Insts.{Instruction, Body, r_body, i_body, u_body, get_rs1, get_rs2}
use rip_sim.Registers
use rip_sim.Registers.{Registers, write as reg_write}
use rip_sim.Pipe.{de_stage, ex_stage, ma_stage}
use rip_sim.Rip.State.{Rip}
use rip_sim.Rip.Alu.{i_value}
use rip_sim.Rip.Exec
use rip_sim.Rip.Exec.{exec}
use rip_sim.Rip.Decode
use rip_sim.Rip.Decode.{operand, forward, is_csr_immediate}
use rip_sim.Rip.Cycle.{run_exec, run_decode}
use rip_sim.Rip.SingleImmediate.{computes, exec_value, in_range}
use rip_sim.Rip.Extension.{sign_extend_12, sign_extend_20}
use rip_sim.Rip.Single.{machine_of}
use rip_sim.Rip.Forwarding.{hits, writes_rd-hits}
use rip_sim.Rip.Flow.Moves.{
  View, view, IsPlain, Plain, Holds, put, set, result, or_zero, imm_of, forwarded, Latched,
  result_at, decode_inst, rs1_of, rs2_of, latch_rs1, latch_rs2,
}
use rip_sim.Rip.Flow.Moves
use rip_sim.Rip.Flow.Stages.{Stage, plain_kind}

-- EX, with the immediate of the instruction in its latch.
exec-Plain :
    (b : Body) (word : ℕ) (s : Rip)
    → IsPlain b
    → s.ps.de_imm_val ≡ imm_of b
    → exec (record { body = b; val = word }) s
      ≡ ok (
        Exec.latch
            (result b s.ps.de_rs1_val s.ps.de_rs2_val s.ps.de_imm_val (s.ps.pcs ex_stage))
            0
            s,
        none,
      )
unfolding exec
exec-Plain (r_body m rd rs1 rs2) word s h e = refl
exec-Plain (u_body m rd imm) word s h e = refl
exec-Plain (i_body m rd rs1 imm) word s (ne, lt, a, r) e =
    let c = computes m rd rs1 imm s.ps.de_rs1_val (machine_of s) a r in
    let v : i_value m s.ps.de_rs1_val s.ps.de_imm_val ≡ some (ok c.value) =
      ap (i_value m s.ps.de_rs1_val) e ∙ c.in_pipeline in
    exec_value m rd rs1 imm word c.value s v
    ∙ ap (λ o. ok (Exec.latch (or_zero o) 0 s, none)) (sym v)
exec-Plain _ word s h e = absurd h

-- DE.
put-at :
    (o : Option Instruction) (v : ℕ) (regs : Registers) (r : ℕ)
    → Holds o
    → put o v regs r ≡ (if hits o r then v else regs r)
put-at none v regs r h = refl
put-at (some i) v regs r (p, reads) = rw (plain_kind i.body p).rd refl

chosen :
    (x y : Bool) (u v r : ℕ) (regs : Registers)
    → r < 32
    → (do
      f ← ok (if x then some u else if y then some v else none)
      elim f [ some w ↦ ok w | none ↦ Registers.read regs r ])
      ≡ ok (if x then u else if y then v else regs r)
unfolding Registers.read
chosen x y u v r regs h = ground arith

operand-forwarded :
    (s : Rip) (r : ℕ)
    → r < 32
    → Holds (s.ps.insts ex_stage)
    → Holds (s.ps.insts ma_stage)
    → operand s r ≡ ok (forwarded (view s) r)
unfolding operand forward
operand-forwarded s r h in_ex in_ma =
    let x = s.ps.insts ex_stage in
    let y = s.ps.insts ma_stage in
    rw
      (
        writes_rd-hits x r,
        writes_rd-hits y r,
        put-at x s.ps.ex_rd_val (put y s.ps.ma_rd_val s.regs) r in_ex,
        put-at y s.ps.ma_rd_val s.regs r in_ma,
      )
      (chosen (hits x r) (hits y r) s.ps.ex_rd_val s.ps.ma_rd_val r s.regs h)

abbrev decoded : Body → ℕ → ℕ → Rip → Rip
decoded b a c s = record s {
  ps = record (s.ps) {
    de_rs1_val = latch_rs1 b a s.ps.de_rs1_val;
    de_rs2_val = latch_rs2 b c s.ps.de_rs2_val;
    de_imm_val = imm_of b;
  };
}

-- The fields are below 32.
field_lt :
    (word : ℕ) → ((bit_and word 0x000f8000 >>> 15) < 32) × ((bit_and word 0x01f00000 >>> 20) < 32)
field_lt word = (omega (arith, bit_and_field 5 15 word), omega (arith, bit_and_field 5 20 word))

decode-Plain :
    (b : Body) (word : ℕ) (s : Rip)
    → let i : Instruction = record { body = b; val = word } in
      Plain i
      → Holds (s.ps.insts ex_stage)
      → Holds (s.ps.insts ma_stage)
      → Decode.decode i s
        ≡ ok (decoded b (forwarded (view s) (rs1_of i)) (forwarded (view s) (rs2_of i)) s)
unfolding Decode.decode get_rs1 get_rs2
decode-Plain (r_body m rd rs1 rs2) word s h in_ex in_ma =
    let i : Instruction = record { body = r_body m rd rs1 rs2; val = word } in
    let lt = field_lt word in
    let e1 = operand-forwarded s (rs1_of i) lt.0 in_ex in_ma in
    let first : Rip = record s {
      ps = record (s.ps) { de_rs1_val = forwarded (view s) (rs1_of i) };
    } in
    let e2 = operand-forwarded first (rs2_of i) lt.1 in_ex in_ma in rw (e1, e2) refl
decode-Plain (i_body m rd rs1 imm) word s (p, reads) in_ex in_ma =
    let i : Instruction = record { body = i_body m rd rs1 imm; val = word } in
    let k = plain_kind (i_body m rd rs1 imm) p in
    let e1 = operand-forwarded s (rs1_of i) (field_lt word).0 in_ex in_ma in
    let x = sign_extend_12 imm (in_range m imm p.3) in rw (k.immediate, k.csr, e1, reads.2, x) refl
decode-Plain (u_body m rd imm) word s (p, reads) in_ex in_ma =
    let x = sign_extend_20 imm p.1 in rw (reads.1, x) refl
decode-Plain _ word s h in_ex in_ma = absurd h.0

abbrev Ran : Option Instruction → Rip → Rip → Type 0
Ran o s t =
    ◌≡◌ {A = Result (Rip × Option Exception)} (elim o [ none ↦ ok (s, none) | some i ↦ exec i s ])
      (ok (t, none))

at_ex :
    (o : Option Instruction) (s : Rip)
    → Holds o
    → Latched o s.ps.de_imm_val
    → Stage (Ran o s) s (record (view s) {
      ex_rd =
          set o
            (result_at o s.ps.de_rs1_val s.ps.de_rs2_val s.ps.de_imm_val (s.ps.pcs ex_stage))
            s.ps.ex_rd_val;
    })
at_ex none s h e = record {
  after = s;
  returns = refl;
  sees = refl;
  stalled = refl;
  invalid = refl;
  branch_pc = refl;
  bp = refl;
}
at_ex (some i) s (p, reads) e = record {
  after =
      Exec.latch
        (result_at (some i) s.ps.de_rs1_val s.ps.de_rs2_val s.ps.de_imm_val (s.ps.pcs ex_stage)) 0
        s;
  returns = exec-Plain i.body i.val s p e;
  sees = refl;
  stalled = refl;
  invalid = refl;
  branch_pc = refl;
  bp = refl;
}

pub ex_stage_lem :
    (s : Rip)
    → Holds (s.ps.insts ex_stage)
    → Latched (s.ps.insts ex_stage) s.ps.de_imm_val
    → Stage (λ t. run_exec s ≡ ok (t, none)) s (Moves.exec (view s))
ex_stage_lem s h e = at_ex (s.ps.insts ex_stage) s h e

at_de :
    (o : Option Instruction) (s : Rip)
    → Holds o
    → Holds (s.ps.insts ex_stage)
    → Holds (s.ps.insts ma_stage)
    → Stage
        (λ t. elim o [ none ↦ ok s | some i ↦ Decode.decode i s ] ≡ ok t)
        s
        (decode_inst o (view s))
at_de none s h in_ex in_ma = record {
  after = s;
  returns = refl;
  sees = refl;
  stalled = refl;
  invalid = refl;
  branch_pc = refl;
  bp = refl;
}
at_de (some i) s h in_ex in_ma = record {
  after = decoded i.body (forwarded (view s) (rs1_of i)) (forwarded (view s) (rs2_of i)) s;
  returns = decode-Plain i.body i.val s h in_ex in_ma;
  sees = refl;
  stalled = refl;
  invalid = refl;
  branch_pc = refl;
  bp = refl;
}

pub de_stage_lem :
    (s : Rip)
    → s.ps.stalled_stages de_stage ≡ false
    → Holds (s.ps.insts de_stage)
    → Holds (s.ps.insts ex_stage)
    → Holds (s.ps.insts ma_stage)
    → Stage (λ t. run_decode s ≡ ok t) s (Moves.decode (view s))
de_stage_lem s free h in_ex in_ma =
    rw (free, run_decode) (at_de (s.ps.insts de_stage) s h in_ex in_ma)
