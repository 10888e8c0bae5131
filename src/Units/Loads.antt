-- ===== src/Units/Loads.antt =====
-- Tests of unittests/RIPSimulator/RIPSimulatorTest.cpp.
use rip_sim.Base.{List, [], ◌∷◌}
use rip_sim.Units.Runner.{Test, regs_test}

abbrev pub test_swlw : Test
test_swlw =
    regs_test (0x80000813 ∷ 0x00300893 ∷ 0xff012e23 ∷ 0xffc12903 ∷ [])
      ((16, 0xfffff800) ∷ (17, 3) ∷ (18, 0xfffff800) ∷ [])

abbrev pub test_lw_wr : Test
test_lw_wr =
    regs_test (0x00100813 ∷ 0xff012e23 ∷ 0xffc12903 ∷ 0x00390913 ∷ []) ((16, 1) ∷ (18, 4) ∷ [])

abbrev pub test_shlhlhu : Test
test_shlhlhu =
    regs_test (0x80000813 ∷ 0xff011e23 ∷ 0xffc11883 ∷ 0xffc15903 ∷ [])
      ((16, 0xfffff800) ∷ (17, 0xfffff800) ∷ (18, 63488) ∷ [])

abbrev pub test_sblblbu : Test
test_sblblbu =
    regs_test (0xfff00813 ∷ 0xff010e23 ∷ 0xffc10883 ∷ 0xffc14903 ∷ [])
      ((16, 0xffffffff) ∷ (17, 0xffffffff) ∷ (18, 255) ∷ [])

abbrev pub test_mulh : Test
test_mulh =
    regs_test (0xfff00193 ∷ 0x00100213 ∷ 0x024192b3 ∷ [])
      ((3, 0xffffffff) ∷ (4, 1) ∷ (5, 0xffffffff) ∷ [])

abbrev pub test_mulhsu : Test
test_mulhsu =
    regs_test (0xfff00193 ∷ 0xfff00213 ∷ 0x0241a2b3 ∷ [])
      ((3, 0xffffffff) ∷ (4, 0xffffffff) ∷ (5, 0xffffffff) ∷ [])

abbrev pub test_mulhu : Test
test_mulhu =
    regs_test (0xfff00193 ∷ 0xfff00213 ∷ 0x0241b2b3 ∷ [])
      ((3, 0xffffffff) ∷ (4, 0xffffffff) ∷ (5, 0xfffffffe) ∷ [])

abbrev pub all : List Test
all =
    test_swlw ∷ test_lw_wr ∷ test_shlhlhu ∷ test_sblblbu ∷ test_mulh ∷ test_mulhsu ∷ test_mulhu ∷ []
