-- ===== src/Units/Same.antt =====
-- The tests of unittests/Simulator/SimulatorTest.cpp have the programs and the expectations of
-- those of the pipelined simulator with the same names.
use rip_sim.Base.{List, [], ◌∷◌}
use rip_sim.Units.Runner.{Test}
use rip_sim.Units.Jumps.{
  test_jalr, test_beq, test_bne, test_blt, test_bge, test_bltu, test_bgeu, test_jal,
}
use rip_sim.Units.Loads.{test_swlw, test_shlhlhu, test_sblblbu, test_mulh, test_mulhsu, test_mulhu}
use rip_sim.Units.System.{test_csrrs_csrrwi, test_csrrw, test_ecallmmode, test_mret}
use rip_sim.Units.Arithmetic.{
  test_add, test_sub, test_or, test_and, test_xor, test_mul, test_div, test_divu, test_rem,
  test_remu,
}
use rip_sim.Units.Immediate.{
  test_addi, test_slti, test_sltiu, test_xori, test_ori, test_andi, test_slli, test_srai, test_srli,
  test_auipc, test_zero1, test_zero2, test_lui, test_fence_as_nop,
}

abbrev pub from_addi_to_slli : List Test
from_addi_to_slli =
    test_addi ∷ test_slti ∷ test_sltiu ∷ test_xori ∷ test_ori ∷ test_andi ∷ test_slli ∷ []

abbrev pub from_srai_to_and : List Test
from_srai_to_and = test_srai ∷ test_srli ∷ test_add ∷ test_sub ∷ test_or ∷ test_and ∷ []

abbrev pub from_xor_to_jalr : List Test
from_xor_to_jalr = test_xor ∷ test_auipc ∷ test_swlw ∷ test_shlhlhu ∷ test_sblblbu ∷ test_jalr ∷ []

abbrev pub from_beq_to_bltu : List Test
from_beq_to_bltu = test_beq ∷ test_bne ∷ test_blt ∷ test_bge ∷ test_bltu ∷ []

abbrev pub from_bgeu_to_mulhsu : List Test
from_bgeu_to_mulhsu =
    test_bgeu ∷ test_jal ∷ test_zero1 ∷ test_zero2 ∷ test_mul ∷ test_mulh ∷ test_mulhsu ∷ []

abbrev pub from_mulhu_to_lui : List Test
from_mulhu_to_lui = test_mulhu ∷ test_div ∷ test_divu ∷ test_rem ∷ test_remu ∷ test_lui ∷ []

abbrev pub from_fence_as_nop_to_ecallmmode : List Test
from_fence_as_nop_to_ecallmmode =
    test_fence_as_nop ∷ test_csrrs_csrrwi ∷ test_csrrw ∷ test_ecallmmode ∷ []

abbrev pub from_mret_to_mret : List Test
from_mret_to_mret = test_mret ∷ []
