-- ===== src/Units/Emitting.antt =====
-- Tests of unittests/Assembler/BinaryEmitterTest.cpp: a text, and the words that are emitted. The
-- comparison is of the length of the expected bytes.
use rip_sim.Base.{ℕ, Bool, true, false, ◌&&◌, ◌==◌, List, [], ◌∷◌, ◌++◌, none, some, ok, err}
use Prim.Native.String.{String}
use rip_sim.Units.Parsing.{text}
use rip_sim.Asm.Emitter.{emit_binary, word_bytes}

pub record Case : Type 0 where
  pub lines : List String
  pub expected : List ℕ

-- `memcmp` on the bytes of the expected words.
starts_with : List ℕ → List ℕ → Bool
starts_with bs [] = true
starts_with [] (b ∷ bs) = false
starts_with (c ∷ cs) (b ∷ bs) = c == b && starts_with cs bs

bytes_of : List ℕ → List ℕ
unfolding word_bytes
bytes_of [] = []
bytes_of (w ∷ ws) = word_bytes w ++ bytes_of ws

unfoldable pub passes : Case → Bool
unfolding starts_with bytes_of
passes c = elim (emit_binary (text c.lines)) [
  | none ↦ false
  | some r ↦ elim r [ err e ↦ false | ok bs ↦ starts_with bs (bytes_of c.expected) ]
]

abbrev pub test_rv32i_itype : Case
test_rv32i_itype = record {
  lines =
      "addi, x16, x0, 5" ∷ "addi, x17, x0, 3" ∷ "slti x17, x16, -2" ∷ "sltiu, x17, x16, 5 "
      ∷ "xori, x17, x16, 6 " ∷ "ori, x17, x16, 6" ∷ "andi, x17, x16, 7" ∷ "jalr x18, x0, 44"
      ∷ "lb x18, 4(x0)" ∷ "lh x18, 4(x0)" ∷ "lbu x18, 4(x0)" ∷ "lw x18, 4(x0)" ∷ "slli x17, x16, 3"
      ∷ "srli x17, x16, 2" ∷ "srai x17, x16, 2" ∷ [];
  expected =
      0x00500813 ∷ 0x00300893 ∷ 0xffe82893 ∷ 0x00583893 ∷ 0x00684893 ∷ 0x00686893 ∷ 0x00787893
      ∷ 0x02c00967 ∷ 0x00400903 ∷ 0x00401903 ∷ 0x00404903 ∷ 0x00402903 ∷ 0x00381893 ∷ 0x00285893
      ∷ 0x40285893 ∷ [];
}

abbrev pub test_rv32i_rtype : Case
test_rv32i_rtype = record {
  lines =
      "add x2, x3, x4" ∷ "sub x2, x3, x4" ∷ "sll x18, x16, x17" ∷ "slt x18, x16, x17"
      ∷ "sltu x18, x17, x16" ∷ "xor x18, x16, x17" ∷ "srl x18, x16, x17" ∷ "sra x18, x16, x17"
      ∷ "or x18, x16, x17" ∷ "and x18, x16, x17" ∷ [];
  expected =
      0x00418133 ∷ 0x40418133 ∷ 0x01181933 ∷ 0x01182933 ∷ 0x0108b933 ∷ 0x01184933 ∷ 0x01185933
      ∷ 0x41185933 ∷ 0x01186933 ∷ 0x01187933 ∷ [];
}

abbrev pub test_rv32i_utype : Case
test_rv32i_utype = record {
  lines = "lui x16, 2" ∷ "auipc x16, 2" ∷ [];
  expected = 0x00002837 ∷ 0x00002817 ∷ [];
}

abbrev pub test_rv32i_jtype : Case
test_rv32i_jtype = record {
  lines = "jal x18, 12" ∷ "jal x18, 699050" ∷ [];
  expected = 0x00c0096f ∷ 0x2abaa96f ∷ [];
}

abbrev pub test_rv32i_stype : Case
test_rv32i_stype = record {
  lines = "sb x16, 4(x0)" ∷ "sh x16, 4(x0)" ∷ "sw x16, 4(x0)" ∷ "sw x16, -1336(x0)" ∷ [];
  expected = 0x01000223 ∷ 0x01001223 ∷ 0x01002223 ∷ 0xad002423 ∷ [];
}

abbrev pub test_rv32i_btype : Case
test_rv32i_btype = record {
  lines =
      "beq x16, x17, 12" ∷ "bne x16, x17, 12" ∷ "blt x16, x17, -8" ∷ "bge x16, x17, 12"
      ∷ "bltu x16, x17, 12" ∷ "bgeu x16, x17, 12" ∷ "bgeu x16, x17, -1366" ∷ [];
  expected =
      0x01180663 ∷ 0x01181663 ∷ 0xff184ce3 ∷ 0x01185663 ∷ 0x01186663 ∷ 0x01187663 ∷ 0xab1875e3 ∷ [];
}
