-- ===== src/Units/Stages.antt =====
-- Tests of unittests/RIPSimulator/BranchPredictorTest.cpp and ForwardingTest.cpp. The stack pointer
-- `SP` is 0x8400. The test of the interactive predictor is left out.
use rip_sim.Base.{List, [], ◌∷◌, some, none, true, false}
use rip_sim.Predictor.OneBit.{init_one_bit}
use rip_sim.Predictor.TwoBit.{init_two_bit}
use rip_sim.Predictor.Gshare.{init_gshare}
use rip_sim.Predictor.Dispatch.{one_bit, two_bit, gshare}
use rip_sim.Units.Commands.{
  Script, proceed, run_all, registers, pc, pred, history, index, de_rs1, de_rs2, de_csr, ex_rd,
}

abbrev pub test_flushtest : Script
test_flushtest = record {
  words =
      0x00000813 ∷ 0x00200893 ∷ 0x00180813 ∷ 0xff181ee3 ∷ 0x01188663 ∷ 0x00200893 ∷ 0x00200893 ∷ [];
  predictor = some (one_bit init_one_bit);
  commands = run_all ∷ registers ((16, 2) ∷ (17, 2) ∷ []) ∷ pc 0x801c ∷ [];
}

abbrev pub test_flushtest2 : Script
test_flushtest2 = record {
  words =
      0x00700193 ∷ 0xfff00093 ∷ 0xffe00113 ∷ 0x0020c463 ∷ 0x00301463 ∷ 0x20301a63 ∷ 0xfe20cee3 ∷ [];
  predictor = some (one_bit init_one_bit);
  commands = run_all ∷ pc 0x801c ∷ [];
}

abbrev pub test_onebitbp_checkpred : Script
test_onebitbp_checkpred = record {
  words =
      0x00000293 ∷ 0x00000313 ∷ 0x00300393 ∷ 0x00000e13 ∷ 0x0072da63 ∷ 0x005e0e33 ∷ 0x006e0e33
      ∷ 0x00128293 ∷ 0xff1ff06f ∷ 0x00000293 ∷ 0x00130313 ∷ 0x00735463 ∷ 0xfe1ff06f ∷ [];
  predictor = some (one_bit init_one_bit);
  commands =
      proceed 6
      ∷ pred false
      ∷ proceed 7
      ∷ pred false
      ∷ proceed 7
      ∷ pred false
      ∷ proceed 7
      ∷ pred false
      ∷ proceed 5
      ∷ pred false
      ∷ proceed 4
      ∷ pred true
      ∷ proceed 9
      ∷ pred false
      ∷ proceed 7
      ∷ pred false
      ∷ proceed 7
      ∷ pred false
      ∷ proceed 5
      ∷ pred false
      ∷ proceed 4
      ∷ pred true
      ∷ proceed 9
      ∷ pred false
      ∷ proceed 7
      ∷ pred false
      ∷ proceed 7
      ∷ pred false
      ∷ proceed 5
      ∷ pred false
      ∷ run_all
      ∷ [];
}

abbrev pub test_twobitbp_checkpred : Script
test_twobitbp_checkpred = record {
  words =
      0x00000293 ∷ 0x00000313 ∷ 0x00300393 ∷ 0x00000e13 ∷ 0x0072da63 ∷ 0x005e0e33 ∷ 0x006e0e33
      ∷ 0x00128293 ∷ 0xff1ff06f ∷ 0x00000293 ∷ 0x00130313 ∷ 0x00735463 ∷ 0xfe1ff06f ∷ [];
  predictor = some (two_bit init_two_bit);
  commands =
      proceed 6
      ∷ pred false
      ∷ proceed 7
      ∷ pred false
      ∷ proceed 7
      ∷ pred false
      ∷ proceed 7
      ∷ pred false
      ∷ proceed 5
      ∷ pred false
      ∷ proceed 4
      ∷ pred false
      ∷ proceed 7
      ∷ pred false
      ∷ proceed 7
      ∷ pred false
      ∷ proceed 7
      ∷ pred false
      ∷ proceed 5
      ∷ pred false
      ∷ proceed 4
      ∷ pred false
      ∷ proceed 7
      ∷ pred false
      ∷ proceed 7
      ∷ pred false
      ∷ proceed 7
      ∷ pred false
      ∷ proceed 5
      ∷ pred false
      ∷ run_all
      ∷ [];
}

abbrev pub test_gshare_checkpred : Script
test_gshare_checkpred = record {
  words =
      0x00000293 ∷ 0x00000313 ∷ 0x00300393 ∷ 0x00000e13 ∷ 0x0072da63 ∷ 0x005e0e33 ∷ 0x006e0e33
      ∷ 0x00128293 ∷ 0xff1ff06f ∷ 0x00000293 ∷ 0x00130313 ∷ 0x00735463 ∷ 0xfe1ff06f ∷ [];
  predictor = some (gshare init_gshare);
  commands =
      proceed 6
      ∷ pred false
      ∷ proceed 7
      ∷ pred false
      ∷ proceed 7
      ∷ pred false
      ∷ proceed 7
      ∷ pred false
      ∷ proceed 5
      ∷ pred false
      ∷ history 1
      ∷ index 10
      ∷ proceed 4
      ∷ pred false
      ∷ proceed 7
      ∷ pred false
      ∷ proceed 7
      ∷ pred false
      ∷ proceed 7
      ∷ pred false
      ∷ proceed 5
      ∷ pred false
      ∷ history 33
      ∷ index 42
      ∷ proceed 4
      ∷ pred false
      ∷ proceed 7
      ∷ pred false
      ∷ proceed 7
      ∷ pred false
      ∷ proceed 7
      ∷ pred false
      ∷ proceed 5
      ∷ pred false
      ∷ index 42
      ∷ run_all
      ∷ history 67
      ∷ [];
}

abbrev pub test_rs1_forward : Script
test_rs1_forward = record {
  words = 0x00500813 ∷ 0x00300813 ∷ 0x00a80913 ∷ [];
  predictor = none;
  commands = proceed 4 ∷ de_rs1 3 ∷ [];
}

abbrev pub test_dont_forward_btype_rd : Script
test_dont_forward_btype_rd = record {
  words = 0x00120213 ∷ 0x28771263 ∷ 0x00120213 ∷ [];
  predictor = none;
  commands = proceed 5 ∷ de_rs1 1 ∷ [];
}

abbrev pub test_dont_forward_stype_rd : Script
test_dont_forward_stype_rd = record {
  words = 0x00111123 ∷ 0x00211703 ∷ [];
  predictor = none;
  commands = proceed 3 ∷ de_rs1 0x8400 ∷ ex_rd 0x8402 ∷ [];
}

abbrev pub test_csr_forward : Script
test_csr_forward = record {
  words = 0x00e00293 ∷ 0x30529073 ∷ 0x30502573 ∷ [];
  predictor = none;
  commands = proceed 4 ∷ de_csr 14 ∷ [];
}

abbrev pub test_rs2_forward : Script
test_rs2_forward = record {
  words = 0x00500193 ∷ 0x00600213 ∷ 0x004182b3 ∷ [];
  predictor = none;
  commands = proceed 4 ∷ de_rs1 5 ∷ de_rs2 6 ∷ [];
}

abbrev pub all : List Script
all =
    test_flushtest ∷ test_flushtest2 ∷ test_onebitbp_checkpred ∷ test_twobitbp_checkpred
    ∷ test_gshare_checkpred ∷ test_rs1_forward ∷ test_dont_forward_btype_rd
    ∷ test_dont_forward_stype_rd ∷ test_csr_forward ∷ test_rs2_forward ∷ []
