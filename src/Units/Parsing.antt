-- ===== src/Units/Parsing.antt =====
-- Tests of unittests/Assembler/ParserTest.cpp: the tokens of the lines that `parseLine` reads, and a
-- label.
use rip_sim.Base.{ℕ, Bool, true, false, ◌&&◌, ◌==◌, List, [], ◌∷◌, ◌++◌, Option, none, some}
use Prim.Native.String.{String}
use rip_sim.Text.Chars.{Chars, codes, same, find}
use rip_sim.Asm.Parser.{AsmParser, init, parse_line}

pub record Case : Type 0 where
  pub lines : List String
  pub tokens : List (List String)
  pub label : Option (String × ℕ)

abbrev pub text : List String → Chars
text [] = []
text (l ∷ ls) = codes l ++ (10 ∷ text ls)

-- The first tokens are these.
has_tokens : List Chars → List String → Bool
unfolding same
has_tokens toks [] = true
has_tokens [] (t ∷ ts) = false
has_tokens (tok ∷ toks) (t ∷ ts) = same tok (codes t) && has_tokens toks ts

reads : List (List String) → AsmParser → Bool
unfolding parse_line has_tokens
reads [] p = true
reads (ts ∷ tss) p = let (b, p') = parse_line p in b && has_tokens p'.toks ts && reads tss p'

has_label : Option (String × ℕ) → AsmParser → Bool
unfolding find
has_label none p = true
has_label (some (l, ad)) p = elim (find p.labels (codes l)) [ none ↦ false | some v ↦ v == ad ]

unfoldable pub passes : Case → Bool
unfolding init reads has_label
passes c =
    let p = init (text c.lines) in p.line_counter == 0 && reads c.tokens p && has_label c.label p

abbrev pub test_basics : Case
test_basics = record {
  lines = "addi a0, a0, 2047" ∷ "xori a0, a0, 4" ∷ [];
  tokens = ("addi" ∷ "a0" ∷ "a0" ∷ "2047" ∷ []) ∷ ("xori" ∷ "a0" ∷ "a0" ∷ "4" ∷ []) ∷ [];
  label = none;
}

abbrev pub test_labels : Case
test_labels = record {
  lines = "    add     a5,a1,a2" ∷ "    mv      a5,a0" ∷ ".L3:" ∷ "    bne     a5,a2,.L3" ∷ [];
  tokens =
      ("add" ∷ "a5" ∷ "a1" ∷ "a2" ∷ [])
      ∷ ("mv" ∷ "a5" ∷ "a0" ∷ [])
      ∷ ("bne" ∷ "a5" ∷ "a2" ∷ ".L3" ∷ [])
      ∷ [];
  label = some (".L3", 0x08);
}

abbrev pub test_loadstore : Case
test_loadstore = record {
  lines = "lh x18, 4(x0)" ∷ [];
  tokens = ("lh" ∷ "x18" ∷ "4(x0)" ∷ []) ∷ [];
  label = none;
}
