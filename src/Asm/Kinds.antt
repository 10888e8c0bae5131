-- ===== src/Asm/Kinds.antt =====
-- The six maps of include/InstructionTypes.h, looked up by name.
use mathlib.Core.List.{map}
use Prim.Native.String.{String}
use rip_sim.Base.{List, [], ◌∷◌, ◌≡◌, refl, Option, none, some}
use rip_sim.Insts.{
  IMnemo, RMnemo, SMnemo, BMnemo, UMnemo, JMnemo, addi, slti, sltiu, xori, ori, andi, jalr, lb, lh,
  lw, lbu, lhu, slli, srli, srai, csrrw, csrrs, csrrc, csrrwi, csrrsi, csrrci, ecall, ebreak, uret,
  sret, mret, ext, extx, add, sub, sll, slt, sltu, xor, srl, sra, or, and, mul, mulh, mulhsu, mulhu,
  div, divu, rem, remu, sb, sh, sw, beq, bne, blt, bge, bltu, bgeu, lui, auipc, jal,
}
use rip_sim.Stats.Names.{i_name, r_name, s_name, b_name, u_name, j_name}
use rip_sim.Text.Chars.{Chars, codes, find}

-- A map from the names of some mnemonics to them.
abbrev named : {M : Type 0} → (M → String) → List M → List (Chars × M)
named name ms = map (λ m. (codes (name m), m)) ms

unfoldable pub i_type_kinds : Chars → Option IMnemo
unfolding find i_name
i_type_kinds = find (
    named i_name (
      addi ∷ slti ∷ sltiu ∷ xori ∷ ori ∷ andi ∷ jalr ∷ lb ∷ lh ∷ lw ∷ lbu ∷ lhu ∷ slli ∷ srli ∷ srai
      ∷ csrrw ∷ csrrs ∷ csrrc ∷ csrrwi ∷ csrrsi ∷ csrrci ∷ ecall ∷ ebreak ∷ uret ∷ sret ∷ mret ∷ ext
      ∷ extx ∷ []))

unfoldable pub s_type_kinds : Chars → Option SMnemo
unfolding find s_name
s_type_kinds = find (named s_name (sb ∷ sh ∷ sw ∷ []))

unfoldable pub b_type_kinds : Chars → Option BMnemo
unfolding find b_name
b_type_kinds = find (named b_name (beq ∷ bne ∷ blt ∷ bge ∷ bltu ∷ bgeu ∷ []))

unfoldable pub r_type_kinds : Chars → Option RMnemo
unfolding find r_name
r_type_kinds = find (
    named r_name (
      add ∷ sub ∷ sll ∷ slt ∷ sltu ∷ xor ∷ srl ∷ sra ∷ or ∷ and ∷ mul ∷ mulh ∷ mulhsu ∷ mulhu ∷ div
      ∷ divu ∷ rem ∷ remu ∷ []))

unfoldable pub u_type_kinds : Chars → Option UMnemo
unfolding find u_name
u_type_kinds = find (named u_name (lui ∷ auipc ∷ []))

unfoldable pub j_type_kinds : Chars → Option JMnemo
unfolding find j_name
j_type_kinds = find (named j_name (jal ∷ []))

pub i_type_kinds-name : (m : IMnemo) → i_type_kinds (codes (i_name m)) ≡ some m
unfolding i_type_kinds
i_type_kinds-name addi = refl
i_type_kinds-name _ = refl

pub r_type_kinds-name :
    (m : RMnemo)
    → (i_type_kinds (codes (r_name m)) ≡ none) × (r_type_kinds (codes (r_name m)) ≡ some m)
unfolding i_type_kinds r_type_kinds
r_type_kinds-name add = (refl, refl)
r_type_kinds-name _ = (refl, refl)
