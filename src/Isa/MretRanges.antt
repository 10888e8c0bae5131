-- ===== src/Isa/MretRanges.antt =====
-- mret of lib/Instructions.cpp keeps registers, CSRs, memory and PC in the range of their types.
use rip_sim.Base.{
  ℕ, ◌<◌, ◌^◌, arith, bit_and, bit_or, bit_and_le, bit_and_ones, ◌<<<◌, sar, bit_or_lt, sext64,
  holds,
}
use rip_sim.Csr
use rip_sim.Csr.{ModeKind, user, supervisor, hypervisor, machine, epilogue, mstatus, mepc}
use rip_sim.Isa.State.{Machine}
use rip_sim.Isa.Immediate.{mret_mode, mret_exec}
use rip_sim.Isa.Words.{IsWord}
use rip_sim.Isa.Typed.{IsTyped, Types, Words, read_csr, write_csr}

pub sext64-lt : (v : ℕ) → IsWord v → sext64 v < 2 ^ 64
sext64-lt v w = ground arith

pub at_pc : (s : Machine) (pc : ℕ) → IsTyped s → pc < 2 ^ 64 → IsTyped (record s { pc = pc })
at_pc s pc t h = record { regs = t.regs; csrs = t.csrs; mem = t.mem; pc = h }

-- The status that mret leaves.
status-IsWord :
    (v : ℕ)
    → IsWord v
    → IsWord (
        bit_and
          (bit_or (bit_or (bit_and v 0xfffffff7) (bit_and (sar 32 v 7) 1 <<< 3)) 0b10000000)
          0xffffe7ff)
status-IsWord v w =
    let low = bit_and v 0xfffffff7 in
    let high = bit_and (sar 32 v 7) 1 <<< 3 in
    let first : bit_or low high < 2 ^ 32 =
      bit_or_lt 32 low high (omega (arith, bit_and_le v 0xfffffff7))
        (omega (arith, bit_and_ones 1 (sar 32 v 7))) in
    let res = bit_or (bit_or low high) 0b10000000 in
    omega (
      arith,
      bit_and_le res 0xffffe7ff,
      bit_or_lt 32 (bit_or low high) 0b10000000 first (omega arith),
    )

with_csrs :
    (s : Machine) (c : Csr.Csrs) (m : ModeKind)
    → IsTyped s
    → Words c
    → IsTyped (record s { csrs = c; mode = m })
with_csrs s c m t words = record { regs = t.regs; csrs = words; mem = t.mem; pc = t.pc }

mret_mode-Types :
    (s : Machine) (m : ModeKind) (v : ℕ) → IsTyped s → IsWord v → Types (mret_mode s m v)
unfolding mret_mode
mret_mode-Types s user v t w =
    write_csr s.csrs mstatus _ _ t.csrs (omega (arith, bit_and_le mstatus 0xfffdffff)) (λ c words.
      write_csr c mstatus _ _ words (status-IsWord v w)
        (λ c' words'. holds (with_csrs s c' s.mode t words')))
mret_mode-Types s supervisor v t w =
    write_csr s.csrs mstatus _ _ t.csrs (omega (arith, bit_and_le mstatus 0xfffdffff)) (λ c words.
      write_csr c mstatus _ _ words (status-IsWord v w)
        (λ c' words'. holds (with_csrs s c' supervisor t words')))
mret_mode-Types s machine v t w =
    write_csr s.csrs mstatus _ _ t.csrs (status-IsWord v w)
      (λ c words. holds (with_csrs s c machine t words))
mret_mode-Types s _ v t w = holds t

pub mret_exec-Types : (s : Machine) → IsTyped s → Types (mret_exec s)
unfolding mret_exec
mret_exec-Types s t = read_csr s.csrs mepc _ t.csrs (λ pc wp.
    read_csr s.csrs mstatus _ t.csrs (λ v w.
      mret_mode-Types (record s { pc = sext64 pc }) _ v (at_pc s (sext64 pc) t (sext64-lt pc wp))
        w))
