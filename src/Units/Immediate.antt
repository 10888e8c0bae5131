-- ===== src/Units/Immediate.antt =====
-- Tests of unittests/RIPSimulator/RIPSimulatorTest.cpp.
use rip_sim.Base.{List, [], ◌∷◌}
use rip_sim.Units.Runner.{Test, regs_test}

abbrev pub test_addi : Test
test_addi = regs_test (0x00500813 ∷ 0x00300893 ∷ []) ((16, 5) ∷ (17, 3) ∷ [])

abbrev pub test_addi_forward : Test
test_addi_forward = regs_test (0x00500813 ∷ 0x00380893 ∷ []) ((16, 5) ∷ (17, 8) ∷ [])

abbrev pub test_addi_forward2 : Test
test_addi_forward2 = regs_test (0x00500813 ∷ 0x00300813 ∷ 0x00a80913 ∷ []) ((16, 3) ∷ (18, 13) ∷ [])

abbrev pub test_slti : Test
test_slti = regs_test (0xffd00813 ∷ 0xffe82893 ∷ 0xffd82793 ∷ []) ((16, 0xfffffffd) ∷ (17, 1) ∷ [])

abbrev pub test_sltiu : Test
test_sltiu = regs_test (0x00500813 ∷ 0x00683893 ∷ 0x00583793 ∷ []) ((16, 5) ∷ (17, 1) ∷ [])

abbrev pub test_xori : Test
test_xori =
    regs_test (0x00500813 ∷ 0x00384893 ∷ 0xfff84793 ∷ [])
      ((15, 0xfffffffa) ∷ (16, 5) ∷ (17, 6) ∷ [])

abbrev pub test_ori : Test
test_ori =
    regs_test (0x00500813 ∷ 0x00386893 ∷ 0xfff86793 ∷ [])
      ((15, 0xffffffff) ∷ (16, 5) ∷ (17, 7) ∷ [])

abbrev pub test_andi : Test
test_andi = regs_test (0x00500813 ∷ 0x00387893 ∷ 0xfff87793 ∷ []) ((15, 5) ∷ (16, 5) ∷ (17, 1) ∷ [])

abbrev pub test_slli : Test
test_slli =
    regs_test (0x00500813 ∷ 0x00381893 ∷ 0x00181793 ∷ []) ((15, 10) ∷ (16, 5) ∷ (17, 40) ∷ [])

abbrev pub test_srai : Test
test_srai = regs_test (0xff800813 ∷ 0x40285893 ∷ []) ((16, 0xfffffff8) ∷ (17, 0xfffffffe) ∷ [])

abbrev pub test_srli : Test
test_srli = regs_test (0xff800813 ∷ 0x00285893 ∷ []) ((16, 0xfffffff8) ∷ (17, 0x3ffffffe) ∷ [])

abbrev pub test_auipc : Test
test_auipc = regs_test (0x00000897 ∷ 0x00002817 ∷ []) ((16, 40964) ∷ (17, 32768) ∷ [])

abbrev pub test_zero1 : Test
test_zero1 = regs_test (0x00500013 ∷ []) ([])

abbrev pub test_zero2 : Test
test_zero2 = regs_test (0x00c0006f ∷ []) ([])

abbrev pub test_lui : Test
test_lui =
    regs_test (0x00002837 ∷ 0x7ffff0b7 ∷ 0x800003b7 ∷ [])
      ((1, 0x7ffff000) ∷ (7, 0x80000000) ∷ (16, 8192) ∷ [])

abbrev pub test_fence_as_nop : Test
test_fence_as_nop =
    regs_test (0x00500813 ∷ 0x0230000f ∷ 0x0000100f ∷ 0x00300893 ∷ []) ((16, 5) ∷ (17, 3) ∷ [])

abbrev pub all : List Test
all =
    test_addi ∷ test_addi_forward ∷ test_addi_forward2 ∷ test_slti ∷ test_sltiu ∷ test_xori
    ∷ test_ori ∷ test_andi ∷ test_slli ∷ test_srai ∷ test_srli ∷ test_auipc ∷ test_zero1
    ∷ test_zero2 ∷ test_lui ∷ test_fence_as_nop ∷ []
