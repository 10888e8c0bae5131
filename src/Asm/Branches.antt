-- ===== src/Asm/Branches.antt =====
-- Branches: the word takes the immediate, the object does not.
use rip_sim.Base.{ℕ, ◌<◌, ◌%◌, ◌^◌, [], ◌∷◌, ◌≡◌, refl, arith, some, ok}
use rip_sim.Insts.{BMnemo, beq, b_body, new_b, Instruction}
use rip_sim.Decoder.{decode}
use rip_sim.Decoder.Encodes.{decode-new_b}
use rip_sim.Stats.Names.{b_name}
use rip_sim.Text.Chars.{Chars, codes}
use rip_sim.Text.Numbers.{stoi}
use rip_sim.Registers.Names.{reg_of_name}
use rip_sim.Asm.Operands.{find_reg}
use rip_sim.Asm.Emitter.{assemble}

-- The object that the assembler makes of the tokens of a branch.
abbrev pub branch_object : BMnemo → ℕ → ℕ → ℕ → Instruction
branch_object m a b n = record { body = b_body m a b 0; val = (new_b m a b (n % 2 ^ 13)).val }

assemble_b :
    (m : BMnemo) (s t u : Chars) (a b n : ℕ)
    → reg_of_name s ≡ some a
    → reg_of_name t ≡ some b
    → stoi u ≡ ok n
    → assemble (codes (b_name m) ∷ s ∷ t ∷ u ∷ []) ≡ ok (branch_object m a b n)
unfolding assemble find_reg b_name
assemble_b beq s t u a b n hs ht hu = rw (hs, ht, hu)
assemble_b _ s t u a b n hs ht hu = rw (hs, ht, hu)

-- A branch line with two registers of the table and an even number assembles; the object keeps the
-- immediate 0, and its word decodes to the branch with the registers and the lowest 13 bits of the
-- number.
pub assemble-branch :
    (m : BMnemo) (s t u : Chars) (a b n : ℕ)
    → reg_of_name s ≡ some a
    → reg_of_name t ≡ some b
    → stoi u ≡ ok n
    → a < 32
    → b < 32
    → n % 2 ≡ 0
    → (i : Instruction) × (assemble (codes (b_name m) ∷ s ∷ t ∷ u ∷ []) ≡ ok i)
      × (i.body ≡ b_body m a b 0)
      × (decode i.val ≡ some (new_b m a b (n % 2 ^ 13)))
assemble-branch m s t u a b n hs ht hu ha hb even = (
  branch_object m a b n,
  assemble_b m s t u a b n hs ht hu,
  refl,
  decode-new_b m a b (n % 2 ^ 13) ha hb (omega arith) (omega arith),
)
