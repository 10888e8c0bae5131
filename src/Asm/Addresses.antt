-- ===== src/Asm/Addresses.antt =====
-- The labels that the constructor collects, against the bytes that the emitter writes.
use rip_sim.Base.{
  ℕ, ◌+◌, ◌*◌, ◌%◌, ◌<◌, ◌^◌, true, false, List, [], ◌∷◌, ◌++◌, ◌≡◌, refl, ap, ◌∙◌, arith, none,
  some, Result, ok, err, ◌>>=◌, Bool-cases, Option-cases, inl, inr, if◌then◌else◌, add32,
}
use rip_sim.Text.Chars.{Chars, length, All, same, same_refl, find}
use rip_sim.Insts.{Instruction}
use rip_sim.Asm.Parser.{
  Labels, has_colon, before_colon, insert_label, scan_labels, parse_line_inner,
}
use rip_sim.Asm.Emitter.{assemble, word_bytes}
use rip_sim.Asm.Rounds.{emit_lines}

pub same→eq : (s t : Chars) → same s t ≡ true → s ≡ t
unfolding same
same→eq [] [] h = refl
same→eq [] (d ∷ t) h = cc
same→eq (c ∷ s) [] h = cc
same→eq (c ∷ s) (d ∷ t) h = ground (arith, same→eq s t)

find_kept :
    (ls : Labels) (lab old : Chars) (pc a : ℕ)
    → find ls lab ≡ some a
    → find (insert_label old pc ls) lab ≡ some a
unfolding insert_label find
find_kept ls lab old pc a h = elim (Option-cases (find ls old)) [
  | inl e ↦ ground (arith, same→eq old lab)
  | inr (v, e) ↦ rw e h
]

scan_kept :
    (lines : List Chars) (pc a : ℕ) (ls : Labels) (lab : Chars)
    → find ls lab ≡ some a
    → find (scan_labels lines pc ls) lab ≡ some a
unfolding scan_labels
scan_kept [] pc a ls lab h = h
scan_kept (l ∷ lines) pc a ls lab h = elim (Bool-cases (has_colon l)) [
  | inl e ↦ rw e (scan_kept lines pc a _ lab (find_kept ls lab (before_colon l) pc a h))
  | inr e ↦ rw e (scan_kept lines (add32 pc 4) a ls lab h)
]

-- No line of a program defines a label.
abbrev pub NotDefined : Chars → List Chars → Type 0
NotDefined lab = All (λ l. same (before_colon l) lab ≡ false)

abbrev pub instructions : List Chars → ℕ
instructions [] = 0
instructions (l ∷ ls) = (if has_colon l then 0 else 1) + instructions ls

find_other :
    (ls : Labels) (lab other : Chars) (pc : ℕ)
    → find ls lab ≡ none
    → same other lab ≡ false
    → find (insert_label other pc ls) lab ≡ none
unfolding insert_label find
find_other ls lab other pc h n = ground arith

find_new :
    (ls : Labels) (lab : Chars) (pc : ℕ)
    → find ls lab ≡ none
    → find (insert_label lab pc ls) lab ≡ some pc
unfolding insert_label find
find_new ls lab pc h = rw (h, same_refl lab) (ground arith)

scan_label :
    (l : Chars) (lines : List Chars) (pc : ℕ) (ls : Labels)
    → has_colon l ≡ true
    → scan_labels (l ∷ lines) pc ls ≡ scan_labels lines pc (insert_label (before_colon l) pc ls)
unfolding scan_labels
scan_label l lines pc ls c = rw c

scan_inst :
    (l : Chars) (lines : List Chars) (pc : ℕ) (ls : Labels)
    → has_colon l ≡ false
    → scan_labels (l ∷ lines) pc ls ≡ scan_labels lines (add32 pc 4) ls
unfolding scan_labels
scan_inst l lines pc ls c = rw c

scan_first :
    (before : List Chars) (l : Chars) (after : List Chars) (pc : ℕ) (ls : Labels)
    → pc < 2 ^ 32
    → has_colon l ≡ true
    → find ls (before_colon l) ≡ none
    → NotDefined (before_colon l) before
    → find (scan_labels (before ++ l ∷ after) pc ls) (before_colon l)
      ≡ some ((pc + 4 * instructions before) % 2 ^ 32)
unfolding scan_labels
scan_first [] l after pc ls small c h n =
    ap (λ m. find m (before_colon l)) (scan_label l after pc ls c)
    ∙ scan_kept after pc pc _ (before_colon l) (find_new ls (before_colon l) pc h)
    ∙ ap some (omega arith)
scan_first (k ∷ before) l after pc ls small c h (nk, n) = elim (Bool-cases (has_colon k)) [
  | inl e ↦
      ap (λ m. find m (before_colon l)) (scan_label k (before ++ l ∷ after) pc ls e)
      ∙ scan_first before l after pc _ small c
          (find_other ls (before_colon l) (before_colon k) pc h nk) n
      ∙ ap some (ground arith)
  | inr e ↦
      ap (λ m. find m (before_colon l)) (scan_inst k (before ++ l ∷ after) pc ls e)
      ∙ scan_first before l after (add32 pc 4) ls (omega arith) c h n
      ∙ ap some (ground arith)
]

length-word_bytes : (v : ℕ) (bs : List ℕ) → length (word_bytes v ++ bs) ≡ 4 + length bs
unfolding word_bytes
length-word_bytes v bs = omega arith

length_inst :
    (r : Result Instruction) (rest : Result (List ℕ)) (bs : List ℕ) (n : ℕ)
    → ((cs : List ℕ) → rest ≡ ok cs → length cs ≡ n)
    → (r >>= λ i. rest >>= λ cs. ok (word_bytes i.val ++ cs)) ≡ ok bs
    → length bs ≡ 4 + n
length_inst (err e) rest bs n ih h = cc
length_inst (ok i) (err e) bs n ih h = cc
length_inst (ok i) (ok cs) bs n ih h = ground (arith, length-word_bytes i.val cs, ih cs refl)

length-emit_lines :
    (lines : List Chars) (bs : List ℕ)
    → emit_lines lines ≡ ok bs
    → length bs ≡ 4 * instructions lines
unfolding emit_lines
length-emit_lines [] bs h = ground arith
length-emit_lines (l ∷ lines) bs h = elim (Bool-cases (has_colon l)) [
  | inl e ↦ rw e (length-emit_lines lines bs (rw e at h) ∙ omega arith)
  | inr e ↦ rw e (
      length_inst (assemble (parse_line_inner l)) (emit_lines lines) bs (4 * instructions lines)
        (length-emit_lines lines) (rw e at h)
      ∙ omega arith)
]

-- The address that the parser collects for the first line that defines a label is, modulo 2 ^ 32,
-- the number of bytes that the emitter writes for the lines before it, if they assemble.
pub scan_labels-emit_lines :
    (before : List Chars) (l : Chars) (after : List Chars) (bs : List ℕ)
    → has_colon l ≡ true
    → NotDefined (before_colon l) before
    → emit_lines before ≡ ok bs
    → find (scan_labels (before ++ l ∷ after) 0 []) (before_colon l) ≡ some (length bs % 2 ^ 32)
scan_labels-emit_lines before l after bs c n e =
    scan_first before l after 0 [] (omega arith) c (unfold find in refl) n
    ∙ ap (λ (k : ℕ). some (k % 2 ^ 32)) (omega (arith, length-emit_lines before bs e))
