-- ===== src/Rip/Forwarding.antt =====
-- The forwarding of `RIPSimulator::decode` against the register file that EX and MA will leave.
use rip_sim.Base.{
  ℕ, ◌<◌, ◌≡◌, ◌≢◌, refl, arith, ok, Result, Bool, false, some, none, Option, ◌∙◌, ◌==◌, ◌>>=◌,
  if◌then◌else◌, ◌&&◌, ltb, guard, assertion, ◌>>◌,
}
use rip_sim.Registers.{Registers}
use rip_sim.Registers
use rip_sim.Registers.{write as reg_write}
use rip_sim.Insts.{Instruction, has_rd, get_rd}
use rip_sim.Pipe.{ex_stage, ma_stage}
use rip_sim.Rip.State.{Rip}
use rip_sim.Rip.WriteBack.{writeback}
use rip_sim.Rip.MemoryAccess.{memoryaccess}
use rip_sim.Rip.Decode.{operand, forward, writes_rd}
use rip_sim.Rip.Passing.{rd_of, wrote, passed, IsAlu}

-- What the next cycles do with the instruction in MA, and after it with the one in EX.
abbrev pub retire_ma : Option Instruction → Rip → Result Rip
retire_ma none s = ok s
retire_ma (some i) s = writeback i s

abbrev pub retire_ex : Option Instruction → Rip → Result Rip
retire_ex none s = ok s
retire_ex (some i) s = do s ← memoryaccess i s; writeback i s

abbrev pub HoldsAlu : Option Instruction → Type 0
HoldsAlu none = Unit
HoldsAlu (some i) = IsAlu i.body

-- Whether the instruction of a stage writes the register `r`.
abbrev pub hits : Option Instruction → ℕ → Bool
hits none r = false
hits (some i) r = has_rd i.body && r == rd_of i

pub writes_rd-hits : (o : Option Instruction) (r : ℕ) → writes_rd o r ≡ ok (hits o r)
unfolding writes_rd get_rd
writes_rd-hits none r = refl
writes_rd-hits (some i) r = ground arith

record Retired (o : Option Instruction) (v : ℕ) (s : Rip) (result : Result Rip) : Type 0 where
  after : Rip
  returns : result ≡ ok after
  regs : (r : ℕ) → r ≢ 0 → after.regs r ≡ (if hits o r then v else s.regs r)

retired_ma : (o : Option Instruction) (s : Rip) → Retired o s.ps.ma_rd_val s (retire_ma o s)
retired_ma none s = record { after = s; returns = refl; regs = λ r ne. refl }
retired_ma (some i) s =
    let w = wrote i s in record { after = w.after; returns = w.returns; regs = w.regs }

retired_ma-ex_rd :
    (o : Option Instruction) (s : Rip) → (retired_ma o s).after.ps.ex_rd_val ≡ s.ps.ex_rd_val
unfolding retired_ma
retired_ma-ex_rd none s = refl
retired_ma-ex_rd (some i) s = (wrote i s).ex_rd

retired_ex :
    (o : Option Instruction) (s : Rip) → HoldsAlu o → Retired o s.ps.ex_rd_val s (retire_ex o s)
retired_ex none s h = record { after = s; returns = refl; regs = λ r ne. refl }
retired_ex (some i) s h =
    let p = passed i s h in
    let w = wrote i p.after in
    record {
      after = w.after;
      returns = rw p.returns w.returns;
      regs = λ r ne. w.regs r ne ∙ rw (p.ma_rd, p.regs) refl;
    }

by_hits :
    (x y : Bool) (s : Rip) (r : ℕ)
    → r < 32
    → (do
      f ← ok (if x then some s.ps.ex_rd_val else if y then some s.ps.ma_rd_val else none)
      elim f [ some v ↦ ok v | none ↦ Registers.read s.regs r ])
      ≡ (do
        guard (ltb r 32) assertion
        ok (if x then s.ps.ex_rd_val else if y then s.ps.ma_rd_val else s.regs r))
unfolding Registers.read
by_hits x y s r lt = ground arith

-- The value that the pipeline's decode stage takes for a register below 32 other than x0,
-- forwarded from EX or MA or read from the register file, is the value that the register has after
-- the instruction in MA is written back and the one in EX has passed MA and is written back. EX
-- holds no load and no store.
pub operand_lem :
    (s : Rip) (r : ℕ)
    → r < 32
    → r ≢ 0
    → HoldsAlu (s.ps.insts ex_stage)
    → operand s r ≡ (do
      s' ← retire_ma (s.ps.insts ma_stage) s
      s' ← retire_ex (s.ps.insts ex_stage) s'
      Registers.read s'.regs r)
unfolding operand forward Registers.read
operand_lem s r lt ne h =
    let in_ex = s.ps.insts ex_stage in
    let in_ma = s.ps.insts ma_stage in
    let a = retired_ma in_ma s in
    let b = retired_ex in_ex a.after h in
    rw
      (
        writes_rd-hits in_ex r,
        writes_rd-hits in_ma r,
        a.returns,
        b.returns,
        b.regs r ne,
        a.regs r ne,
        retired_ma-ex_rd in_ma s,
      )
      (by_hits (hits in_ex r) (hits in_ma r) s r lt)
