-- ===== src/Units/Arithmetic.antt =====
-- Tests of unittests/RIPSimulator/RIPSimulatorTest.cpp.
use rip_sim.Base.{List, [], ◌∷◌}
use rip_sim.Units.Runner.{Test, regs_test}

abbrev pub test_add : Test
test_add = regs_test (0x00500193 ∷ 0x00600213 ∷ 0x004182b3 ∷ []) ((3, 5) ∷ (4, 6) ∷ (5, 11) ∷ [])

abbrev pub test_sub : Test
test_sub =
    regs_test (0x00500193 ∷ 0x00600213 ∷ 0x404182b3 ∷ []) ((3, 5) ∷ (4, 6) ∷ (5, 0xffffffff) ∷ [])

abbrev pub test_or : Test
test_or = regs_test (0x00300813 ∷ 0x00500893 ∷ 0x01186933 ∷ []) ((16, 3) ∷ (17, 5) ∷ (18, 7) ∷ [])

abbrev pub test_and : Test
test_and = regs_test (0x00300813 ∷ 0x00500893 ∷ 0x01187933 ∷ []) ((16, 3) ∷ (17, 5) ∷ (18, 1) ∷ [])

abbrev pub test_xor : Test
test_xor = regs_test (0x00300813 ∷ 0x00500893 ∷ 0x01184933 ∷ []) ((16, 3) ∷ (17, 5) ∷ (18, 6) ∷ [])

abbrev pub test_mul : Test
test_mul =
    regs_test (0xfff00193 ∷ 0xfff00213 ∷ 0x024182b3 ∷ [])
      ((3, 0xffffffff) ∷ (4, 0xffffffff) ∷ (5, 1) ∷ [])

abbrev pub test_div : Test
test_div =
    regs_test (0x00900193 ∷ 0xffe00213 ∷ 0x0241c2b3 ∷ [])
      ((3, 9) ∷ (4, 0xfffffffe) ∷ (5, 0xfffffffc) ∷ [])

abbrev pub test_divu : Test
test_divu =
    regs_test (0x00900193 ∷ 0xffe00213 ∷ 0x0241d2b3 ∷ []) ((3, 9) ∷ (4, 0xfffffffe) ∷ (5, 0) ∷ [])

abbrev pub test_rem : Test
test_rem =
    regs_test (0x00900193 ∷ 0xffc00213 ∷ 0x0241e2b3 ∷ []) ((3, 9) ∷ (4, 0xfffffffc) ∷ (5, 1) ∷ [])

abbrev pub test_remu : Test
test_remu =
    regs_test (0x00900193 ∷ 0xffc00213 ∷ 0x0241f2b3 ∷ []) ((3, 9) ∷ (4, 0xfffffffc) ∷ (5, 9) ∷ [])

abbrev pub all : List Test
all =
    test_add ∷ test_sub ∷ test_or ∷ test_and ∷ test_xor ∷ test_mul ∷ test_div ∷ test_divu ∷ test_rem
    ∷ test_remu ∷ []
