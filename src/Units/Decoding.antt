-- ===== src/Units/Decoding.antt =====
-- Tests of unittests/DecoderTest.cpp: the mnemonic, the word and, for CSR instructions, rd and rs1 of
-- what a word decodes to.
use rip_sim.Base.{
  ℕ, ◌==◌, ◌&&◌, Bool, true, false, List, [], ◌∷◌, Option, none, some, Result, ok, ◌>>=◌,
}
use rip_sim.Text.Chars.{codes, same}
use rip_sim.Stats.Names.{mnemo}
use rip_sim.Decoder.{decode}
use rip_sim.Insts.{Instruction, get_rd, get_rs1}
use Prim.Native.String.{String}

pub record Case : Type 0 where
  pub word : ℕ
  pub name : String
  pub operands : Option (ℕ × ℕ)

expect_operands : Option (ℕ × ℕ) → Instruction → Result Bool
expect_operands none i = ok true
expect_operands (some (d, s)) i = do rd ← get_rd i; rs1 ← get_rs1 i; ok (rd == d && rs1 == s)

unfoldable pub passes : Case → Result Bool
unfolding expect_operands same mnemo
passes c = elim (decode c.word) [
  | none ↦ ok false
  | some i ↦ (do
    b ← expect_operands c.operands i
    ok (b && same (codes (mnemo i.body)) (codes c.name) && i.val == c.word))
]

unfoldable pub all_pass : List Case → Result Bool
unfolding passes
all_pass [] = ok true
all_pass (c ∷ cs) = do b ← passes c; d ← all_pass cs; ok (b && d)

abbrev case_of : ℕ → String → Option (ℕ × ℕ) → Case
case_of w n o = record { word = w; name = n; operands = o }

abbrev pub test_btype : List Case
test_btype = case_of 0x01180663 "beq" none ∷ []

abbrev pub test_stype : List Case
test_stype = case_of 0xff012e23 "sw" none ∷ []

abbrev pub test_itype : List Case
test_itype = case_of 0x00500193 "addi" none ∷ case_of 0xffc12903 "lw" none ∷ []

abbrev pub test_rtype : List Case
test_rtype = case_of 0x004182b3 "add" none ∷ []

abbrev pub test_utype : List Case
test_utype = case_of 0x00000897 "auipc" none ∷ case_of 0x00002837 "lui" none ∷ []

abbrev pub test_ecall : List Case
test_ecall = case_of 0x00000073 "ecall" none ∷ []

abbrev pub test_ebreak : List Case
test_ebreak = case_of 0x00100073 "ebreak" none ∷ []

abbrev pub test_uret : List Case
test_uret = case_of 0x00200073 "uret" none ∷ []

abbrev pub test_sret : List Case
test_sret = case_of 0x10200073 "sret" none ∷ []

abbrev pub test_mret : List Case
test_mret = case_of 0x30200073 "mret" none ∷ []

abbrev pub test_csrrci : List Case
test_csrrci = case_of 0xc0007073 "csrrci" (some (0, 0)) ∷ []

abbrev pub test_csrrsi : List Case
test_csrrsi = case_of 0xc0006073 "csrrsi" (some (0, 0)) ∷ []

abbrev pub test_csrrwi : List Case
test_csrrwi = case_of 0xc0005073 "csrrwi" (some (0, 0)) ∷ []

abbrev pub test_csrrc : List Case
test_csrrc = case_of 0xc0003073 "csrrc" (some (0, 0)) ∷ []

abbrev pub test_csrrs : List Case
test_csrrs = case_of 0xc0002073 "csrrs" (some (0, 0)) ∷ []

abbrev pub test_csrrw : List Case
test_csrrw = case_of 0xc0001073 "csrrw" (some (0, 0)) ∷ []
