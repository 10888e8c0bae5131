-- ===== src/Rip/Hazard.antt =====
-- A load in EX of lib/RIPSimulator/RIPSimulator.cpp and the instruction behind it.
use rip_sim.Base.{
  ℕ, ◌≡◌, refl, ◌∙◌, ok, err, ◌>>=◌, Option, none, some, Bool, true, false, ◌||◌, ◌&&◌, bit_and,
  ◌>>>◌, assertion, ◌⊎◌, ◌↔◌, inl, inr, ◌==◌, arith, add32, if◌then◌else◌, Bool-cases,
}
use rip_sim.Insts.{
  Instruction, IMnemo, lb, lh, lw, lbu, lhu, has_rs1, has_rs2, get_rd, get_rs1, get_rs2,
}
use rip_sim.Pipe.{PipelineStates, if_stage, de_stage, ex_stage, ma_stage, proceed, set_stall}
use rip_sim.Rip.State.{Rip}
use rip_sim.Rip.Exec
use rip_sim.Rip.Exec.{exec, after_value}
use rip_sim.Rip.Alu.{i_value, csr_value}
use rip_sim.Rip.Control.{load_stall, reads}
use rip_sim.Rip.Passing.{rd_of}
use rip_sim.Rip.SingleImmediate.{i_instruction}
use rip_sim.Rip.SingleLoad.{IsLoad}

-- The word of an instruction names the register as rs1 or rs2, which its class has.
abbrev pub Uses : Instruction → ℕ → Type 0
Uses n rd =
    ((has_rs1 n.body ≡ true) × (get_rs1 n ≡ ok rd))
    ⊎ ((has_rs2 n.body ≡ true) × (get_rs2 n ≡ ok rd))

-- The same as a test; `x` is the field of the word.
named-IsOk :
    (has : Bool) (x rd : ℕ)
    → ((has && rd == x) ≡ true) ↔ ((has ≡ true) × ((if has then ok x else err assertion) ≡ ok rd))
named-IsOk true x rd = (λ e. (refl, ground arith), λ e. let h = e.1 in ground arith)
named-IsOk false x rd = (λ e. absurd (ground arith), λ e. absurd (ground (arith, e.0)))

abbrev used : Instruction → ℕ → Bool
used n rd =
    (has_rs1 n.body && rd == (bit_and n.val 0x000f8000 >>> 15))
    || (has_rs2 n.body && rd == (bit_and n.val 0x01f00000 >>> 20))

either :
    {A B : Type 0} (a b : Bool) → ((a ≡ true) ↔ A) → ((b ≡ true) ↔ B) → ((a || b) ≡ true) ↔ (A ⊎ B)
either true b h k = (λ e. inl (h.0 refl), λ u. refl)
either false b h k =
    (λ e. inr (k.0 e), λ u. elim u [ inl x ↦ absurd (ground (arith, h.1 x)) | inr y ↦ k.1 y ])

used_iff : (n : Instruction) (rd : ℕ) → (used n rd ≡ true) ↔ Uses n rd
unfolding get_rs1 get_rs2
used_iff n rd =
    either (has_rs1 n.body && rd == (bit_and n.val 0x000f8000 >>> 15)) _
      (named-IsOk (has_rs1 n.body) _ rd) (named-IsOk (has_rs2 n.body) _ rd)

reads-eq-used : (n : Instruction) (rd : ℕ) → reads n rd ≡ ok (used n rd)
unfolding reads get_rs1 get_rs2
reads-eq-used n rd = ground arith

abbrev held : Bool → Rip → Rip
held b s = if b then record s { ps = set_stall if_stage (set_stall de_stage s.ps) } else s

load_stall-eq :
    (m : IMnemo) (rd rs1 imm word : ℕ) (n : Instruction) (s : Rip)
    → s.ps.insts de_stage ≡ some n
    → load_stall (i_instruction m rd rs1 imm word) s
      ≡ ok (held (used n (rd_of (i_instruction m rd rs1 imm word))) s)
unfolding load_stall get_rd
load_stall-eq m rd rs1 imm word n s e =
    let r = reads-eq-used n (rd_of (i_instruction m rd rs1 imm word)) in ground arith

-- A load in EX.
exec_load :
    (m : IMnemo) (rd rs1 imm word : ℕ) (s : Rip)
    → IsLoad m
    → exec (i_instruction m rd rs1 imm word) s ≡ (do
      s' ← load_stall (i_instruction m rd rs1 imm word) s
      ok (Exec.latch (add32 s.ps.de_rs1_val s.ps.de_imm_val) 0 s', none))
unfolding exec after_value i_value csr_value
exec_load lb rd rs1 imm word s h = refl
exec_load lh rd rs1 imm word s h = refl
exec_load lw rd rs1 imm word s h = refl
exec_load lbu rd rs1 imm word s h = refl
exec_load lhu rd rs1 imm word s h = refl
exec_load _ rd rs1 imm word s h = absurd h

-- The stages behind a step of the pipeline with IF and DE held, or without.
proceed_held :
    (fetched : Option Instruction) (ps : PipelineStates)
    → ((k : ℕ) → ps.stalled_stages k ≡ false)
    → let ps' = proceed fetched (set_stall if_stage (set_stall de_stage ps)) in
      (ps'.insts if_stage ≡ ps.insts if_stage)
      × (ps'.insts de_stage ≡ ps.insts de_stage)
      × (ps'.insts ex_stage ≡ none)
      × (ps'.insts ma_stage ≡ ps.insts ex_stage)
unfolding proceed
proceed_held fetched ps free = ground (arith, free 2, free 3)

proceed_free :
    (fetched : Option Instruction) (ps : PipelineStates)
    → ((k : ℕ) → ps.stalled_stages k ≡ false)
    → let ps' = proceed fetched ps in
      (ps'.insts if_stage ≡ fetched)
      × (ps'.insts de_stage ≡ ps.insts if_stage)
      × (ps'.insts ex_stage ≡ ps.insts de_stage)
      × (ps'.insts ma_stage ≡ ps.insts ex_stage)
unfolding proceed
proceed_free fetched ps free = ground (arith, free 0, free 1, free 2, free 3)

-- A load in EX and the instruction `n` behind it, and where they are after the next step.
pub record Follows (i n : Instruction) (s : Rip) : Type 0 where
  pub after : Rip
  pub returns : exec i s ≡ ok (after, none)
  pub held_back :
      Uses n (rd_of i)
      → (fetched : Option Instruction)
      → let ps' = proceed fetched after.ps in
        (ps'.insts if_stage ≡ s.ps.insts if_stage)
        × (ps'.insts de_stage ≡ some n)
        × (ps'.insts ex_stage ≡ none)
        × (ps'.insts ma_stage ≡ some i)
  pub goes_on :
      ¬ Uses n (rd_of i)
      → (fetched : Option Instruction)
      → let ps' = proceed fetched after.ps in
        (ps'.insts if_stage ≡ fetched)
        × (ps'.insts de_stage ≡ s.ps.insts if_stage)
        × (ps'.insts ex_stage ≡ some n)
        × (ps'.insts ma_stage ≡ some i)

-- A load in EX, with an instruction in DE and no stage stalled, executes without an exception. If
-- the word of that instruction names the rd of the load as an rs1 or rs2 that its class has, the
-- next move of the stages keeps IF and DE and puts a bubble in EX and the load in MA, whatever is
-- fetched; otherwise every stage moves on.
pub load-Follows :
    (m : IMnemo) (rd rs1 imm word : ℕ) (n : Instruction) (s : Rip)
    → IsLoad m
    → s.ps.insts de_stage ≡ some n
    → s.ps.insts ex_stage ≡ some (i_instruction m rd rs1 imm word)
    → ((k : ℕ) → s.ps.stalled_stages k ≡ false)
    → Follows (i_instruction m rd rs1 imm word) n s
load-Follows m rd rs1 imm word n s h de ex free =
    let i = i_instruction m rd rs1 imm word in
    let sum = add32 s.ps.de_rs1_val s.ps.de_imm_val in
    let b = used n (rd_of i) in
    let u = used_iff n (rd_of i) in
    record {
      after = Exec.latch sum 0 (held b s);
      returns = exec_load m rd rs1 imm word s h ∙ rw (load_stall-eq m rd rs1 imm word n s de) refl;
      held_back = λ uses fetched.
          let p = proceed_held fetched (Exec.latch sum 0 s).ps free in
          rw (u.1 uses) (p.0, p.1 ∙ de, p.2, p.3 ∙ ex);
      goes_on = λ other fetched.
          let p = proceed_free fetched (Exec.latch sum 0 s).ps free in
          elim (Bool-cases b) [
            | inl e ↦ absurd (other (u.0 e))
            | inr e ↦ rw e (p.0, p.1, p.2 ∙ de, p.3 ∙ ex)
          ];
    }
