-- ===== src/Rip/Passing.antt =====
-- What memory access and writeback of lib/RIPSimulator/RIPSimulator.cpp do with an instruction.
use rip_sim.Base.{
  ℕ, List, ◌<◌, ◌≡◌, ◌≢◌, refl, arith, ok, bit_and, bit_and_field, ◌>>>◌, update, false, ◌==◌,
  Bool-cases, inl, inr, if◌then◌else◌, bit_and_ones, ◌&&◌, not, u8, ◌∷◌,
}
use rip_sim.Csr.{write as csr_write, Csrs}
use rip_sim.Registers.{Registers}
use rip_sim.Registers.{write as reg_write}
use rip_sim.Insts.{Instruction, Body, i_body, s_body, b_body, has_rd, get_rd, lb, lh, lw, lbu, lhu}
use rip_sim.Rip.State.{Rip, is_csr}
use rip_sim.Rip.WriteBack.{writeback, has_no_writeback, set_wb_imm_val}
use rip_sim.Rip.MemoryAccess.{memoryaccess, access, latch, is_epilogue}

-- The rd that the word names.
abbrev pub rd_of : Instruction → ℕ
rd_of i = bit_and i.val 0x00000f80 >>> 7

pub rd_of-lt : (i : Instruction) → rd_of i < 32
rd_of-lt i = omega (arith, bit_and_field 5 7 i.val)

-- WB writes the result to rd, and a CSR instruction its new value to the CSR; x0 is left open.
pub record Wrote (i : Instruction) (s : Rip) : Type 0 where
  pub after : Rip
  pub returns : writeback i s ≡ ok after
  pub regs :
      (r : ℕ)
      → r ≢ 0
      → after.regs r ≡ (if has_rd i.body && r == rd_of i then s.ps.ma_rd_val else s.regs r)
  pub csrs : after.csrs ≡ (
      if is_csr i.body
      then update s.csrs (bit_and s.ps.ma_imm_val 0xfff) s.ps.ma_csr_val
      else s.csrs)
  pub ex_rd : after.ps.ex_rd_val ≡ s.ps.ex_rd_val
  pub branch_pc : after.ps.branch_pc ≡ s.ps.branch_pc
  pub invalid : after.ps.invalid_stages ≡ s.ps.invalid_stages

pub no_writeback : (b : Body) → has_no_writeback b ≡ not (has_rd b)
no_writeback (s_body m rs1 rs2 imm) = refl
no_writeback (b_body m rs1 rs2 imm) = refl
no_writeback _ = refl

-- A write to the rd of an instruction cannot fail.
written : Instruction → ℕ → Registers → Registers
written i v r = if rd_of i == 0 then r else update r (rd_of i) v

write_rd : (i : Instruction) (v : ℕ) (r : Registers) → reg_write r (rd_of i) v ≡ ok (written i v r)
unfolding reg_write written
write_rd i v r = ground (arith, rd_of-lt i)

written-at :
    (i : Instruction) (v : ℕ) (r : Registers) (j : ℕ)
    → j ≢ 0
    → written i v r j ≡ (if j == rd_of i then v else r j)
unfolding written
written-at i v r j ne = ground arith

write_ca :
    (c : Csrs) (ca v : ℕ) → csr_write c (bit_and ca 0xfff) v ≡ ok (update c (bit_and ca 0xfff) v)
unfolding csr_write
write_ca c ca v = ground (arith, bit_and_ones 12 ca)

not_csr : (b : Body) → has_rd b ≡ false → is_csr b ≡ false
not_csr (s_body m rs1 rs2 imm) h = refl
not_csr (b_body m rs1 rs2 imm) h = refl
not_csr _ h = cc

-- From what it returns.
writeback-Wrote :
    (i : Instruction) (s : Rip) (wb : ℕ) (regs : Registers) (csrs : Csrs)
    → writeback i s ≡ ok (set_wb_imm_val wb (record s { regs = regs; csrs = csrs }))
    → ((r : ℕ)
        → r ≢ 0
        → regs r ≡ (if has_rd i.body && r == rd_of i then s.ps.ma_rd_val else s.regs r))
    → csrs ≡ (
        if is_csr i.body
        then update s.csrs (bit_and s.ps.ma_imm_val 0xfff) s.ps.ma_csr_val
        else s.csrs)
    → Wrote i s
writeback-Wrote i s wb regs csrs e on_regs on_csrs = record {
  after = set_wb_imm_val wb (record s { regs = regs; csrs = csrs });
  returns = e;
  regs = on_regs;
  csrs = on_csrs;
  ex_rd = refl;
  branch_pc = refl;
  invalid = refl;
}

pub wrote : (i : Instruction) (s : Rip) → Wrote i s
unfolding writeback get_rd
wrote i s =
    let w = write_rd i s.ps.ma_rd_val s.regs in
    let regs = written i s.ps.ma_rd_val s.regs in
    elim (Bool-cases (has_rd i.body)) [
      | inr n ↦
          writeback-Wrote i s 0 s.regs s.csrs (rw (no_writeback i.body, n) refl) (λ r ne. rw n refl)
            (rw (not_csr i.body n) refl)
      | inl h ↦ elim (Bool-cases (is_csr i.body)) [
        | inl c ↦
            writeback-Wrote i s 0 regs
              (update s.csrs (bit_and s.ps.ma_imm_val 0xfff) s.ps.ma_csr_val)
              (rw (no_writeback i.body, h, c, write_ca s.csrs s.ps.ma_imm_val s.ps.ma_csr_val, w)
                refl)
              (λ r ne. rw h (written-at i s.ps.ma_rd_val s.regs r ne)) (rw c refl)
        | inr c ↦
            writeback-Wrote i s s.ps.ma_rd_val regs s.csrs (rw (no_writeback i.body, h, c, w) refl)
              (λ r ne. rw h (written-at i s.ps.ma_rd_val s.regs r ne)) (rw c refl)
      ]
    ]

-- Instructions that do not access the memory.
abbrev pub IsAlu : Body → Type 0
IsAlu (s_body m rs1 rs2 imm) = ⊥
IsAlu (i_body lb rd rs1 imm) = ⊥
IsAlu (i_body lh rd rs1 imm) = ⊥
IsAlu (i_body lw rd rs1 imm) = ⊥
IsAlu (i_body lbu rd rs1 imm) = ⊥
IsAlu (i_body lhu rd rs1 imm) = ⊥
IsAlu _ = Unit

access_alu : (b : Body) (ad : ℕ) (s : Rip) → IsAlu b → access b ad s ≡ ok (latch ad s)
unfolding access
access_alu (s_body m rs1 rs2 imm) ad s h = absurd h
access_alu (i_body lb rd rs1 imm) ad s h = absurd h
access_alu (i_body lh rd rs1 imm) ad s h = absurd h
access_alu (i_body lw rd rs1 imm) ad s h = absurd h
access_alu (i_body lbu rd rs1 imm) ad s h = absurd h
access_alu (i_body lhu rd rs1 imm) ad s h = absurd h
access_alu _ ad s h = refl

-- MA hands the latches of EX on and leaves registers and CSRs alone, also where the result is the
-- MMIO address.
pub record Passed (i : Instruction) (s : Rip) : Type 0 where
  pub after : Rip
  pub returns : memoryaccess i s ≡ ok after
  pub regs : after.regs ≡ s.regs
  pub csrs : after.csrs ≡ s.csrs
  pub ma_rd : after.ps.ma_rd_val ≡ s.ps.ex_rd_val
  pub ma_csr : after.ps.ma_csr_val ≡ s.ps.ex_csr_val
  pub ma_imm : after.ps.ma_imm_val ≡ s.ps.ex_imm_val
  pub branch_pc : after.ps.branch_pc ≡ s.ps.branch_pc
  pub invalid : after.ps.invalid_stages ≡ s.ps.invalid_stages

memoryaccess-Passed :
    (i : Instruction) (s : Rip) (console : List ℕ)
    → memoryaccess i s ≡ ok (latch s.ps.ex_rd_val (record s { console = console }))
    → Passed i s
memoryaccess-Passed i s console e = record {
  after = latch s.ps.ex_rd_val (record s { console = console });
  returns = e;
  regs = refl;
  csrs = refl;
  ma_rd = refl;
  ma_csr = refl;
  ma_imm = refl;
  branch_pc = refl;
  invalid = refl;
}

-- The characters that are printed then.
pub memoryaccess_lem :
    (i : Instruction) (s : Rip)
    → IsAlu i.body
    → (console : List ℕ) × (memoryaccess i s
        ≡ ok (latch s.ps.ex_rd_val (record s { console = console })))
unfolding memoryaccess
memoryaccess_lem i s h = elim (Bool-cases (s.ps.ex_rd_val == 0x10000000)) [
  | inl e ↦ (u8 s.ps.ex_rd_val ∷ s.console, rw e refl)
  | inr e ↦ elim (Bool-cases (is_epilogue s.mode)) [
    | inl m ↦ (s.console, rw (e, m) refl)
    | inr m ↦ (s.console, rw (e, m, access_alu i.body s.ps.ex_rd_val s h) refl)
  ]
]

pub passed : (i : Instruction) (s : Rip) → IsAlu i.body → Passed i s
passed i s h = let (console, e) = memoryaccess_lem i s h in memoryaccess-Passed i s console e
