-- ===== src/Units/Jumps.antt =====
-- Tests of unittests/RIPSimulator/RIPSimulatorTest.cpp.
use rip_sim.Base.{List, [], ◌∷◌}
use rip_sim.Units.Runner.{Test, pc_test}

abbrev pub test_jalr : Test
test_jalr = pc_test (0x00000217 ∷ 0x02c20267 ∷ []) ((4, 32776) ∷ []) 0x802c

abbrev pub test_jalr2 : Test
test_jalr2 =
    pc_test (0x00000217 ∷ 0x00c20267 ∷ 0x00180813 ∷ 0x00120213 ∷ []) ((4, 32777) ∷ []) 0x8010

abbrev pub test_beq : Test
test_beq =
    pc_test (0x00300813 ∷ 0x00300893 ∷ 0x01181663 ∷ 0x01180663 ∷ []) ((16, 3) ∷ (17, 3) ∷ []) 0x8018

abbrev pub test_beq2 : Test
test_beq2 =
    pc_test
      (0x00300813 ∷ 0x00300893 ∷ 0x01181663 ∷ 0x01180663 ∷ 0x00180813 ∷ 0x00180813 ∷ 0x00180813
        ∷ 0x00180813 ∷ 0x00188893 ∷ [])
      ((16, 5) ∷ (17, 4) ∷ []) 0x8024

abbrev pub test_bne : Test
test_bne =
    pc_test (0x00500813 ∷ 0x00300893 ∷ 0x01180663 ∷ 0x01181663 ∷ []) ((16, 5) ∷ (17, 3) ∷ []) 0x8018

abbrev pub test_bne2 : Test
test_bne2 =
    pc_test
      (0x00500813 ∷ 0x00300893 ∷ 0x01180663 ∷ 0x01181663 ∷ 0x00180813 ∷ 0x00180813 ∷ 0x00180813
        ∷ 0x00180813 ∷ 0x00188893 ∷ [])
      ((16, 7) ∷ (17, 4) ∷ []) 0x8024

abbrev pub test_blt : Test
test_blt =
    pc_test (0xffd00813 ∷ 0x00500893 ∷ 0x01185663 ∷ 0x01184663 ∷ [])
      ((16, 0xfffffffd) ∷ (17, 5) ∷ []) 0x8018

abbrev pub test_blt2 : Test
test_blt2 =
    pc_test
      (0xffd00813 ∷ 0x00500893 ∷ 0x01185663 ∷ 0x01184663 ∷ 0x00180813 ∷ 0x00180813 ∷ 0x00180813
        ∷ 0x00180813 ∷ 0x00188893 ∷ [])
      ((16, 0xffffffff) ∷ (17, 6) ∷ []) 0x8024

abbrev pub test_bge : Test
test_bge =
    pc_test (0x00600813 ∷ 0x00500893 ∷ 0x01184663 ∷ 0x01185663 ∷ []) ((16, 6) ∷ (17, 5) ∷ []) 0x8018

abbrev pub test_bge2 : Test
test_bge2 =
    pc_test
      (0x00600813 ∷ 0x00500893 ∷ 0x01184663 ∷ 0x01185663 ∷ 0x00180813 ∷ 0x00180813 ∷ 0x00180813
        ∷ 0x00180813 ∷ 0x00188893 ∷ [])
      ((16, 8) ∷ (17, 6) ∷ []) 0x8024

abbrev pub test_bltu : Test
test_bltu =
    pc_test (0x00300813 ∷ 0x00500893 ∷ 0x01187663 ∷ 0x01186663 ∷ []) ((16, 3) ∷ (17, 5) ∷ []) 0x8018

abbrev pub test_bltu2 : Test
test_bltu2 =
    pc_test
      (0x00300813 ∷ 0x00500893 ∷ 0x01187663 ∷ 0x01186663 ∷ 0x00180813 ∷ 0x00180813 ∷ 0x00180813
        ∷ 0x00180813 ∷ 0x00188893 ∷ [])
      ((16, 5) ∷ (17, 6) ∷ []) 0x8024

abbrev pub test_bgeu : Test
test_bgeu =
    pc_test (0xffd00813 ∷ 0x00500893 ∷ 0x01186663 ∷ 0x01187663 ∷ [])
      ((16, 0xfffffffd) ∷ (17, 5) ∷ []) 0x8018

abbrev pub test_bgeu2 : Test
test_bgeu2 =
    pc_test
      (0xffd00813 ∷ 0x00500893 ∷ 0x01186663 ∷ 0x01187663 ∷ 0x00180813 ∷ 0x00180813 ∷ 0x00180813
        ∷ 0x00180813 ∷ 0x00188893 ∷ [])
      ((16, 0xffffffff) ∷ (17, 6) ∷ []) 0x8024

abbrev pub test_jal : Test
test_jal = pc_test (0x00c0096f ∷ []) ((18, 32772) ∷ []) 0x800c

abbrev pub test_jal2 : Test
test_jal2 =
    pc_test (0xffd00813 ∷ 0x00c0096f ∷ 0x00180813 ∷ 0x00180813 ∷ 0x00180813 ∷ 0x00180813 ∷ [])
      ((16, 0xffffffff) ∷ (18, 32776) ∷ []) 0x8018

abbrev pub all : List Test
all =
    test_jalr ∷ test_jalr2 ∷ test_beq ∷ test_beq2 ∷ test_bne ∷ test_bne2 ∷ test_blt ∷ test_blt2
    ∷ test_bge ∷ test_bge2 ∷ test_bltu ∷ test_bltu2 ∷ test_bgeu ∷ test_bgeu2 ∷ test_jal ∷ test_jal2
    ∷ []
