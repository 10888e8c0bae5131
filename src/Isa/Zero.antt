-- ===== src/Isa/Zero.antt =====
-- x0 stays zero, whatever lib/Instructions.cpp executes.
use rip_sim.Base.{
  ℕ, ◌≡◌, arith, ok, err, Fault, Result, ◌>>=◌, Option, ◌==◌, ltb, if◌then◌else◌, Bool-cases, inl,
  inr, u32, u64, ◌+◌, none, update,
}
use rip_sim.Insts.{
  Body, IMnemo, i_body, r_body, u_body, j_body, s_body, b_body, UMnemo, lui, auipc, jal, SMnemo,
  mret,
}
use rip_sim.Registers
use rip_sim.Registers.{Registers}
use rip_sim.Csr
use rip_sim.Csr.{ModeKind, user, supervisor, hypervisor, machine, epilogue, mstatus, mepc}
use rip_sim.Exceptions.{Exception}
use rip_sim.Isa.State.{Machine, Out, write_next}
use rip_sim.Isa.Alu.{r_exec}
use rip_sim.Isa.Immediate.{i_step, i_exec, csr_exec, mret_mode, mret_exec}
use rip_sim.Isa.Other.{u_exec, s_effect, s_exec, b_exec, j_exec, exec, is_epilogue}

-- If a machine results, its x0 is zero.
pub data KeepsZero : Out → Type 0 where
  zero_kept : {s : Machine} {e : Option Exception} → s.regs 0 ≡ 0 → KeepsZero (ok (s, e))
  faults : {x : Fault} → KeepsZero (err x)

bind : {A : Type 0} (r : Result A) (f : A → Out) → ((a : A) → KeepsZero (f a)) → KeepsZero (r >>= f)
bind (ok a) f h = h a
bind (err x) f h = faults

-- A write to the register file, x0 included.
written :
    (r : Registers) (rd val : ℕ) (f : Registers → Out)
    → r 0 ≡ 0
    → ((r' : Registers) → r' 0 ≡ 0 → KeepsZero (f r'))
    → KeepsZero (Registers.write r rd val >>= f)
unfolding Registers.write
written r rd val f zero h = elim (Bool-cases (ltb rd 32)) [
  | inl e ↦ rw e (h (if rd == 0 then r else update r rd val) (ground (arith, zero)))
  | inr e ↦ rw e faults
]

next : (s : Machine) (rd val : ℕ) → s.regs 0 ≡ 0 → KeepsZero (write_next s rd val)
unfolding write_next
next s rd val zero =
    written s.regs rd val (λ r. ok (record s { regs = r; pc = u64 (s.pc + 4) }, none)) zero
      (λ r z. zero_kept z)

csr_next : (s : Machine) (rd ca : ℕ) (new : ℕ → ℕ) → s.regs 0 ≡ 0 → KeepsZero (csr_exec s rd ca new)
unfolding csr_exec
csr_next s rd ca new zero =
    bind (Csr.read s.csrs ca) _
      (λ cv. bind (Csr.write s.csrs ca (new cv)) _ (λ c. next (record s { csrs = c }) rd cv zero))

ruleset keeping = (bind, written, next, csr_next, zero_kept, faults)

mret_mode_keeps : (s : Machine) (m : ModeKind) (v : ℕ) → s.regs 0 ≡ 0 → KeepsZero (mret_mode s m v)
unfolding mret_mode
mret_mode_keeps s user v zero = search keeping
mret_mode_keeps s _ v zero = search keeping

module _ (rd rs1 imm a i : ℕ) (s : Machine) (zero : s.regs 0 ≡ 0) where
  i_step_keeps : (m : IMnemo) → KeepsZero (i_step m rd rs1 imm a i s)
  unfolding i_step mret_exec
  i_step_keeps mret = search (keeping, mret_mode_keeps)
  i_step_keeps _ = search keeping

u_keeps : (m : UMnemo) (rd imm : ℕ) (s : Machine) → s.regs 0 ≡ 0 → KeepsZero (u_exec m rd imm s)
unfolding u_exec
u_keeps lui rd imm s zero = search keeping
u_keeps auipc rd imm s zero = search keeping

s_keeps : (m : SMnemo) (ad b : ℕ) (s : Machine) → s.regs 0 ≡ 0 → KeepsZero (s_effect m ad b s)
unfolding s_effect
s_keeps m ad b s zero = elim (Bool-cases (u32 ad == 0x10000000)) [
  | inl e ↦ rw e (zero_kept zero)
  | inr e ↦ elim (Bool-cases (is_epilogue s.mode)) [
    | inl e' ↦ rw (e, e') (zero_kept zero)
    | inr e' ↦ rw (e, e') (search keeping)
  ]
]

-- If x0 is zero before an instruction of any class executes, it is zero in the machine that
-- results, whether an exception comes with it or not.
pub exec-KeepsZero : (b : Body) (s : Machine) → s.regs 0 ≡ 0 → KeepsZero (exec b s)
unfolding exec i_exec r_exec j_exec s_exec b_exec
exec-KeepsZero (i_body m rd rs1 imm) s zero = search (keeping, i_step_keeps)
exec-KeepsZero (r_body m rd rs1 rs2) s zero = search keeping
exec-KeepsZero (u_body m rd imm) s zero = u_keeps m rd imm s zero
exec-KeepsZero (j_body jal rd imm) s zero = search keeping
exec-KeepsZero (s_body m rs1 rs2 imm) s zero = search (keeping, s_keeps)
exec-KeepsZero (b_body m rs1 rs2 imm) s zero = search keeping
