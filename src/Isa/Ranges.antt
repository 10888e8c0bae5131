-- ===== src/Isa/Ranges.antt =====
-- Every register, CSR, memory cell and PC of lib/Instructions.cpp stays in the range of its type.
use rip_sim.Base.{
  ℕ, ◌<◌, ◌^◌, ◌+◌, arith, Result, ◌>>=◌, ◌>>◌, ◌==◌, ltb, if◌then◌else◌, Bool, true, false,
  Bool-cases, inl, inr, u32, u64, add32, bit_and, bit_and_le, bit_or_lt, bit_xor_lt, guard,
  bad_shift, AllOk, holds, fails, all_bind, to_int, ltb_ℤ, signed32,
}
use rip_sim.Insts.{
  Body, IMnemo, i_body, r_body, u_body, j_body, s_body, b_body, sign_extend, addi, slti, sltiu,
  xori, ori, andi, jalr, lb, lh, lw, lbu, lhu, slli, srli, srai, csrrw, csrrs, csrrc, csrrwi,
  csrrsi, csrrci, ecall, ebreak, uret, sret, mret, ext, extx, UMnemo, lui, auipc, jal, SMnemo, sb,
  sh, sw,
}
use rip_sim.Memory.{read_byte, read_half_word, read_word}
use rip_sim.Memory.{Memory}
use rip_sim.Memory.Cells.{
  Bytes, read_byte-AllOk, read_half_word-AllOk, read_word-AllOk, write_byte-AllOk,
  write_half_word-AllOk, write_word-AllOk,
}
use rip_sim.Isa.State.{Machine, write_next}
use rip_sim.Isa.Alu.{r_exec, r_result}
use rip_sim.Isa.Immediate.{i_step, i_exec, csr_exec, load_address}
use rip_sim.Isa.Other.{u_exec, s_effect, s_exec, b_exec, j_exec, exec, is_epilogue, store}
use rip_sim.Isa.Words.{IsWord, r_result-IsWord, to_int-IsWord, div-IsWord, sar-IsWord}
use rip_sim.Isa.Typed.{IsTyped, Types, read_reg, read_csr, write_reg, write_csr, next}
use rip_sim.Isa.MretRanges.{sext64-lt, at_pc, mret_exec-Types}

-- A CSR instruction that computes words of words.
csr_next :
    (s : Machine) (rd ca : ℕ) (new : ℕ → ℕ)
    → IsTyped s
    → ((v : ℕ) → IsWord v → IsWord (new v))
    → Types (csr_exec s rd ca new)
unfolding csr_exec
csr_next s rd ca new t h = read_csr s.csrs ca _ t.csrs (λ cv w.
    write_csr s.csrs ca (new cv) _ t.csrs (h cv w) (λ c words.
      next (record s { csrs = c }) rd cv
        (record { regs = t.regs; csrs = words; mem = t.mem; pc = t.pc }) w))

-- A load.
load_next :
    (r : Result ℕ) (f : ℕ → ℕ) (P : ℕ → Type 0) (s : Machine) (rd : ℕ)
    → IsTyped s
    → AllOk P r
    → ((v : ℕ) → P v → IsWord (f v))
    → Types (r >>= λ v. write_next s rd (f v))
load_next r f P s rd t all h = all_bind r _ all (λ v p. next s rd (f v) t (h v p))

-- A shift by an amount that is tested.
shift_next :
    (b : Bool) (s : Machine) (rd v : ℕ)
    → IsTyped s
    → IsWord v
    → Types (guard b bad_shift >> write_next s rd v)
shift_next true s rd v t w = next s rd v t w
shift_next false s rd v t w = fails

module _ (rd rs1 imm a i : ℕ) (s : Machine) (t : IsTyped s) (wa : IsWord a) (wi : IsWord i)
    (w1 : rs1 < 32) where
  i_step-Types : (m : IMnemo) → Types (i_step m rd rs1 imm a i s)
  unfolding i_step
  i_step-Types addi = next s rd (add32 a i) t (omega arith)
  i_step-Types slti = next s rd _ t (to_int-IsWord (ltb_ℤ (signed32 a) (signed32 i)))
  i_step-Types sltiu = next s rd _ t (to_int-IsWord (ltb a i))
  i_step-Types xori = next s rd _ t (bit_xor_lt 32 a i wa wi)
  i_step-Types ori = next s rd _ t (bit_or_lt 32 a i wa wi)
  i_step-Types andi = next s rd (bit_and a i) t (omega (arith, bit_and_le a i))
  i_step-Types jalr =
      let word : IsWord (bit_and (add32 a i) 0xfffffffe) =
        omega (arith, bit_and_le (add32 a i) 0xfffffffe) in
      write_reg s.regs rd (u32 (s.pc + 4)) _ t.regs (omega arith) (λ r words.
        holds (record { regs = words; csrs = t.csrs; mem = t.mem; pc = sext64-lt _ word }))
  i_step-Types lb =
      load_next (read_byte s.mem (load_address a i)) _ _ s rd t
        (read_byte-AllOk s.mem (load_address a i) t.mem) (λ v h. ground arith)
  i_step-Types lh =
      load_next (read_half_word s.mem (load_address a i)) _ _ s rd t
        (read_half_word-AllOk s.mem (load_address a i)) (λ v h. ground arith)
  i_step-Types lw =
      load_next (read_word s.mem (load_address a i)) (λ v. v) _ s rd t
        (read_word-AllOk s.mem (load_address a i)) (λ v h. h)
  i_step-Types lbu =
      load_next (read_byte s.mem (load_address a i)) (λ v. v) _ s rd t
        (read_byte-AllOk s.mem (load_address a i) t.mem) (λ v h. omega arith)
  i_step-Types lhu =
      load_next (read_half_word s.mem (load_address a i)) (λ v. v) _ s rd t
        (read_half_word-AllOk s.mem (load_address a i)) (λ v h. omega arith)
  i_step-Types slli = shift_next (ltb imm 32) s rd _ t (omega arith)
  i_step-Types srli = shift_next (ltb imm 32) s rd _ t (div-IsWord a (2 ^ imm) wa)
  i_step-Types srai = shift_next (ltb imm 32) s rd _ t (sar-IsWord a imm wa)
  i_step-Types csrrw = csr_next s rd _ _ t (λ v w. wa)
  i_step-Types csrrs = csr_next s rd _ _ t (λ v w. bit_or_lt 32 a v wa w)
  i_step-Types csrrc = csr_next s rd _ _ t (λ v w. omega (arith, bit_and_le a (to_int (v == 0))))
  i_step-Types csrrwi = csr_next s rd _ _ t (λ v w. omega arith)
  i_step-Types csrrsi = csr_next s rd _ _ t (λ v w. bit_or_lt 32 v rs1 w (omega arith))
  i_step-Types csrrci = csr_next s rd _ _ t (λ v w. omega (arith, bit_and_le v (to_int (rs1 == 0))))
  i_step-Types ecall = holds t
  i_step-Types ebreak = holds t
  i_step-Types uret = fails
  i_step-Types sret = fails
  i_step-Types mret = mret_exec-Types s t
  i_step-Types ext = holds (at_pc s _ t (omega arith))
  i_step-Types extx = holds (at_pc s _ t (omega arith))

sign_extend-IsWord : (imm : ℕ) → imm < 2 ^ 12 → IsWord (sign_extend 12 imm)
sign_extend-IsWord imm h = ground arith

u_exec-Types : (m : UMnemo) (rd imm : ℕ) (s : Machine) → IsTyped s → Types (u_exec m rd imm s)
unfolding u_exec
u_exec-Types lui rd imm s t = next s rd _ t (omega arith)
u_exec-Types auipc rd imm s t = next s rd _ t (omega arith)

store-AllOk : (m : SMnemo) (mem : Memory) (ad v : ℕ) → Bytes mem → AllOk Bytes (store m mem ad v)
unfolding store
store-AllOk sb mem ad v b = write_byte-AllOk mem ad _ b
store-AllOk sh mem ad v b = write_half_word-AllOk mem ad _ b
store-AllOk sw mem ad v b = write_word-AllOk mem ad v b

s_effect-Types : (m : SMnemo) (ad b : ℕ) (s : Machine) → IsTyped s → Types (s_effect m ad b s)
unfolding s_effect
s_effect-Types m ad b s t =
    let next_typed : u64 (s.pc + 4) < 2 ^ 64 = omega arith in
    elim (Bool-cases (u32 ad == 0x10000000)) [
      | inl e ↦ rw e (holds (record { regs = t.regs; csrs = t.csrs; mem = t.mem; pc = next_typed }))
      | inr e ↦ elim (Bool-cases (is_epilogue s.mode)) [
        | inl e' ↦ rw (e, e') (holds (at_pc s _ t next_typed))
        | inr e' ↦
            rw (e, e')
              (all_bind (store m s.mem ad b) _ (store-AllOk m s.mem ad b t.mem) (λ mem bytes.
                holds (record { regs = t.regs; csrs = t.csrs; mem = bytes; pc = next_typed })))
      ]
    ]

branch_pc-lt : (b : Bool) (x y : ℕ) → (if b then u64 x else u64 y) < 2 ^ 64
branch_pc-lt true x y = omega arith
branch_pc-lt false x y = omega arith

-- The fields of the bit sets that reach a value as they are.
abbrev pub FieldsFit : Body → Type 0
FieldsFit (i_body m rd rs1 imm) = (rs1 < 32) × (imm < 2 ^ 12)
FieldsFit _ = Unit

pub exec-Types : (b : Body) (s : Machine) → FieldsFit b → IsTyped s → Types (exec b s)
unfolding exec i_exec r_exec j_exec s_exec b_exec
exec-Types (i_body m rd rs1 imm) s (h1, hi) t =
    read_reg s.regs rs1 _ t.regs
      (λ a w. i_step-Types rd rs1 imm a (sign_extend 12 imm) s t w (sign_extend-IsWord imm hi) h1 m)
exec-Types (r_body m rd rs1 rs2) s h t = read_reg s.regs rs1 _ t.regs (λ a wa.
    read_reg s.regs rs2 _ t.regs
      (λ b wb. next s rd (r_result m a b) t (r_result-IsWord m a b wa wb)))
exec-Types (u_body m rd imm) s h t = u_exec-Types m rd imm s t
exec-Types (j_body jal rd imm) s h t =
    write_reg s.regs rd (u32 (s.pc + 4)) _ t.regs (omega arith)
      (λ r words. holds (record { regs = words; csrs = t.csrs; mem = t.mem; pc = omega arith }))
exec-Types (s_body m rs1 rs2 imm) s h t =
    read_reg s.regs rs1 _ t.regs
      (λ a wa. read_reg s.regs rs2 _ t.regs (λ b wb. s_effect-Types m _ b s t))
exec-Types (b_body m rs1 rs2 imm) s h t =
    read_reg s.regs rs1 _ t.regs
      (λ a wa. read_reg s.regs rs2 _ t.regs (λ b wb. holds (at_pc s _ t (branch_pc-lt _ _ _))))
