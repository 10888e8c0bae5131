-- ===== src/Asm/Parser.antt =====
-- include/Assembler/AsmParser.h and lib/Assembler/AsmParser.cpp. A stream is the list of the lines
-- that `std::getline` has still to read.
use rip_sim.Base.{
  ℕ, ◌+◌, Bool, true, false, ◌||◌, List, [], ◌∷◌, ◌++◌, ◌==◌, if◌then◌else◌, Option, none, some,
  add32,
}
use rip_sim.Text.Chars.{Chars, find}
use rip_sim.Text.Split.{pieces, words}

-- `std::map<std::string, Address>`, where `insert` keeps a value that is there.
abbrev pub Labels : Type 0
Labels = List (Chars × ℕ)

pub record AsmParser : Type 0 where
  pub is : List Chars
  pub toks : List Chars
  pub line_counter : ℕ
  pub pc : ℕ
  pub labels : Labels

-- `line.find(':') != npos`, and the text before the first colon.
unfoldable pub has_colon : Chars → Bool
has_colon [] = false
has_colon (c ∷ s) = c == 58 || has_colon s

unfoldable pub before_colon : Chars → Chars
before_colon [] = []
before_colon (c ∷ s) = let rest = before_colon s in if c == 58 then [] else c ∷ rest

abbrev pub insert_new : Option ℕ → Chars → ℕ → Labels → Labels
insert_new (some old) lab pc ls = ls
insert_new none lab pc ls = (lab, pc) ∷ ls

unfoldable pub insert_label : Chars → ℕ → Labels → Labels
unfolding find
insert_label lab pc ls = insert_new (find ls lab) lab pc ls

-- The loop of the constructor; `PC` is an `unsigned`.
unfoldable pub scan_labels : List Chars → ℕ → Labels → Labels
unfolding has_colon before_colon insert_label
scan_labels [] pc ls = ls
scan_labels (l ∷ lines) pc ls =
    let is_label = has_colon l in
    scan_labels lines (if is_label then pc else add32 pc 4)
      (if is_label then insert_label (before_colon l) pc ls else ls)

unfoldable pub init : Chars → AsmParser
unfolding pieces scan_labels
init text = record {
  is = pieces 10 text;
  toks = [];
  line_counter = 0;
  pc = 0;
  labels = scan_labels (pieces 10 text) 0 [];
}

-- The words of each piece between commas.
all_words : List Chars → List Chars
unfolding words
all_words [] = []
all_words (p ∷ ps) = words p ++ all_words ps

unfoldable pub parse_line_inner : Chars → List Chars
unfolding all_words pieces
parse_line_inner str = all_words (pieces 44 str)

unfoldable pub parse_lines : List Chars → AsmParser → Bool × AsmParser
unfolding has_colon parse_line_inner
parse_lines [] ap = (false, record ap { is = [] })
parse_lines (l ∷ lines) ap =
    let counted = record ap { is = lines; line_counter = ap.line_counter + 1 } in
    let rest = parse_lines lines counted in
    if has_colon l then rest else (true, record counted { toks = parse_line_inner l })

-- True if a line with an instruction was read.
unfoldable pub parse_line : AsmParser → Bool × AsmParser
unfolding parse_lines
parse_line ap = parse_lines ap.is ap
