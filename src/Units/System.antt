-- ===== src/Units/System.antt =====
-- Tests of unittests/RIPSimulator/RIPSimulatorTest.cpp.
use rip_sim.Base.{List, [], ◌∷◌, some, none}
use rip_sim.Units.Runner.{Test}

abbrev pub test_csrrs_csrrwi : Test
test_csrrs_csrrwi = record {
  words = 0x34265073 ∷ 0x34202f73 ∷ 0xf146d073 ∷ 0xf1402573 ∷ [];
  registers = (10, 13) ∷ (30, 12) ∷ [];
  csrs = (0x342, 12) ∷ (0xf14, 13) ∷ [];
  pc = none;
}

abbrev pub test_csrrs_csrrsi : Test
test_csrrs_csrrsi = record {
  words = 0x34266073 ∷ 0x34202f73 ∷ [];
  registers = (30, 12) ∷ [];
  csrs = (0x342, 12) ∷ (0xf14, 0) ∷ [];
  pc = none;
}

abbrev pub test_csrrs_csrrci : Test
test_csrrs_csrrci = record {
  words = 0x00100013 ∷ 0x342011f3 ∷ 0x342171f3 ∷ [];
  registers = (3, 1) ∷ [];
  csrs = (0x342, 1) ∷ (0xf14, 0) ∷ [];
  pc = none;
}

abbrev pub test_csrrw : Test
test_csrrw = record {
  words = 0x00e00293 ∷ 0x30529073 ∷ 0x30502573 ∷ 0x00f00313 ∷ 0x18031073 ∷ 0x18002f73 ∷ [];
  registers = (5, 14) ∷ (6, 15) ∷ (10, 14) ∷ (30, 15) ∷ [];
  csrs = (0x305, 14) ∷ (0x180, 15) ∷ [];
  pc = none;
}

abbrev pub test_csrrc : Test
test_csrrc = record {
  words = 0x00e00293 ∷ 0x30529073 ∷ 0x30503573 ∷ [];
  registers = (5, 14) ∷ (10, 14) ∷ [];
  csrs = (0x305, 14) ∷ (0x180, 0) ∷ [];
  pc = none;
}

abbrev pub test_ecallmmode : Test
test_ecallmmode = record {
  words = 0x00000217 ∷ 0x01c20213 ∷ 0x30521073 ∷ 0x00000073 ∷ [];
  registers = (4, 32796) ∷ [];
  csrs = (0x341, 32780) ∷ (0x342, 11) ∷ (0x343, 0) ∷ (0x305, 32796) ∷ (0x300, 6144) ∷ [];
  pc = some 0x801c;
}

abbrev pub test_mret : Test
test_mret = record {
  words =
      0x00000217 ∷ 0x01c20213 ∷ 0x30521073 ∷ 0x00000073 ∷ 0x00100093 ∷ 0x00900493 ∷ 0x02a0056f
      ∷ 0x34102573 ∷ 0x00450513 ∷ 0x34151073 ∷ 0x30200073 ∷ [];
  registers = (1, 1) ∷ (4, 32796) ∷ (9, 9) ∷ (10, 32796) ∷ [];
  csrs = (0x342, 11) ∷ (0x343, 0) ∷ (0x305, 32796) ∷ (0x300, 128) ∷ [];
  pc = some 0x8042;
}

abbrev pub all : List Test
all =
    test_csrrs_csrrwi ∷ test_csrrs_csrrsi ∷ test_csrrs_csrrci ∷ test_csrrw ∷ test_csrrc
    ∷ test_ecallmmode ∷ test_mret ∷ []
