-- ===== src/Isa/Typed.antt =====
-- What keeps every register, CSR, memory cell and PC of lib/Instructions.cpp in the range of its
-- type.
use rip_sim.Base.{
  ℕ, ◌<◌, ◌^◌, ◌+◌, arith, ok, ◌>>=◌, ◌==◌, ltb, Bool-cases, inl, inr, u64, none, update, AllOk,
  holds, fails,
}
use rip_sim.Memory.Cells.{Bytes}
use rip_sim.Registers
use rip_sim.Registers.{Registers}
use rip_sim.Csr
use rip_sim.Csr.{Csrs}
use rip_sim.Isa.State.{Machine, Out, write_next}
use rip_sim.Isa.Words.{IsWord}

abbrev pub Words : (ℕ → ℕ) → Type 0
Words f = (r : ℕ) → IsWord (f r)

-- 32-bit registers and CSRs, 8-bit cells and a 64-bit address.
pub record IsTyped (s : Machine) : Type 0 where
  pub regs : Words s.regs
  pub csrs : Words s.csrs
  pub mem : Bytes s.mem
  pub pc : s.pc < 2 ^ 64

-- If a machine results, it is typed.
abbrev pub Types : Out → Type 0
Types = AllOk (λ p. IsTyped p.0)

-- What is read and written.
pub read_reg :
    (r : Registers) (rd : ℕ) (f : ℕ → Out)
    → Words r
    → ((a : ℕ) → IsWord a → Types (f a))
    → Types (Registers.read r rd >>= f)
unfolding Registers.read
read_reg r rd f words h = elim (Bool-cases (ltb rd 32)) [
  | inl e ↦ rw e (h (r rd) (words rd))
  | inr e ↦ rw e fails
]

pub read_csr :
    (c : Csrs) (ca : ℕ) (f : ℕ → Out)
    → Words c
    → ((a : ℕ) → IsWord a → Types (f a))
    → Types (Csr.read c ca >>= f)
unfolding Csr.read
read_csr c ca f words h = elim (Bool-cases (ltb ca 4096)) [
  | inl e ↦ rw e (h (c ca) (words ca))
  | inr e ↦ rw e fails
]

update-Words : (f : ℕ → ℕ) (k v : ℕ) → Words f → IsWord v → Words (update f k v)
update-Words f k v words h j = let w = words j in ground arith

pub write_reg :
    (r : Registers) (rd v : ℕ) (f : Registers → Out)
    → Words r
    → IsWord v
    → ((r' : Registers) → Words r' → Types (f r'))
    → Types (Registers.write r rd v >>= f)
unfolding Registers.write
write_reg r rd v f words word h = elim (Bool-cases (ltb rd 32)) [
  | inl e ↦ elim (Bool-cases (rd == 0)) [
    | inl z ↦ rw (e, z) (h r words)
    | inr z ↦ rw (e, z) (h (update r rd v) (update-Words r rd v words word))
  ]
  | inr e ↦ rw e fails
]

pub write_csr :
    (c : Csrs) (ca v : ℕ) (f : Csrs → Out)
    → Words c
    → IsWord v
    → ((c' : Csrs) → Words c' → Types (f c'))
    → Types (Csr.write c ca v >>= f)
unfolding Csr.write
write_csr c ca v f words word h = elim (Bool-cases (ltb ca 4096)) [
  | inl e ↦ rw e (h (update c ca v) (update-Words c ca v words word))
  | inr e ↦ rw e fails
]

pub next : (s : Machine) (rd v : ℕ) → IsTyped s → IsWord v → Types (write_next s rd v)
unfolding write_next
next s rd v t word =
    write_reg s.regs rd v (λ r. ok (record s { regs = r; pc = u64 (s.pc + 4) }, none)) t.regs word
      (λ r words. holds (record { regs = words; csrs = t.csrs; mem = t.mem; pc = omega arith }))
