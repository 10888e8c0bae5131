-- ===== src/Print/Lines.antt =====
-- Printed lines: the tokens that the assembler reads in them.
use rip_sim.Base.{ℕ, List, [], ◌∷◌, ◌++◌, ◌≡◌, ◌≢◌, refl, ap₂, ◌∙◌, arith, false}
use mathlib.Core.List.{append-nil}
use rip_sim.Registers.Names.{abi, Names, InLine}
use rip_sim.Text.Chars.{Chars, All, All-append}
use rip_sim.Text.Split.{Plain, Lacks, pieces_single, words, words_single, words-append_space}
use rip_sim.Text.Numbers.{show_int, show_int-Plain, show_int-ne-nil}
use rip_sim.Asm.Parser.{has_colon, parse_line_inner}

-- A line without a comma or a colon in which these tokens are read.
pub record Line (s : Chars) (ts : List Chars) : Type 0 where
  pub tokens : words s ≡ ts
  pub in_line : All InLine s

pub Line-append :
    (s t : Chars) {ts us : List Chars} → Line s ts → Line t us → Line (s ++ 32 ∷ t) (ts ++ us)
Line-append s t h k = record {
  tokens = words-append_space s t ∙ ap₂ ◌++◌ h.tokens k.tokens;
  in_line = All-append InLine s (32 ∷ t) h.in_line (omega arith, k.in_line);
}

pub Plain-InLine : (s : Chars) → All Plain s → All InLine s
Plain-InLine [] h = tt
Plain-InLine (c ∷ s) (hc, hs) = (omega arith, Plain-InLine s hs)

pub Line-word : (s : Chars) → s ≢ [] → All Plain s → Line s (s ∷ [])
Line-word [] n h = absurd (n refl)
Line-word (c ∷ s) n h = record { tokens = words_single c s h; in_line = Plain-InLine (c ∷ s) h }

pub Line-int : (v : ℕ) → Line (show_int v) (show_int v ∷ [])
Line-int v = Line-word (show_int v) (show_int-ne-nil v) (show_int-Plain v)

pub Line-reg : (i : ℕ) (n : Names i) → Line (abi i) (n.token ∷ [])
Line-reg i n = record { tokens = n.is_word; in_line = n.in_line }

InLine-no_colon : (s : Chars) → All InLine s → has_colon s ≡ false
unfolding has_colon
InLine-no_colon [] h = refl
InLine-no_colon (c ∷ s) (hc, hs) = ground (arith, InLine-no_colon s hs)

InLine-Lacks : (s : Chars) → All InLine s → Lacks 44 s × Lacks 10 s
InLine-Lacks [] h = (tt, tt)
InLine-Lacks (c ∷ s) (hc, hs) =
    ((omega arith, (InLine-Lacks s hs).0), (omega arith, (InLine-Lacks s hs).1))

pub Line-no_colon : (s : Chars) {ts : List Chars} → Line s ts → has_colon s ≡ false
Line-no_colon s h = InLine-no_colon s h.in_line

pub Line-no_newline : (s : Chars) {ts : List Chars} → Line s ts → Lacks 10 s
Line-no_newline s h = (InLine-Lacks s h.in_line).1

pub parse_line_inner-Line :
    (s t : Chars) (ts : List Chars) → Line s (t ∷ ts) → parse_line_inner s ≡ t ∷ ts
unfolding parse_line_inner
parse_line_inner-Line [] t ts h = let e = h.tokens in absurd (unfold words in cc)
parse_line_inner-Line (c ∷ s) t ts h =
    rw (pieces_single 44 c s (InLine-Lacks (c ∷ s) h.in_line).0)
      (append-nil (words (c ∷ s)) ∙ h.tokens)
