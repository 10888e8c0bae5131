-- ===== src/Asm/Rounds.antt =====
-- The loop of the emitter ends, and emits the lines one by one.
use rip_sim.Base.{
  ℕ, zero, suc, ◌<◌, ◌≤◌, List, [], ◌∷◌, ◌++◌, ◌≡◌, refl, sym, ap, ◌∙◌, arith, Option, some, Result,
  ok, err, ◌>>=◌, Bool-cases, inl, inr, if◌then◌else◌,
}
use mathlib.Core.List.{append_assoc, append-nil}
use rip_sim.Text.Chars.{Chars, length}
use rip_sim.Text.Split.{pieces}
use rip_sim.Insts.{Instruction}
use rip_sim.Asm.Parser.{AsmParser, init, parse_line, parse_lines, parse_line_inner, has_colon}
use rip_sim.Asm.Emitter.{emit_loop, emit_inst, emit_round, emit_binary, assemble, word_bytes}

-- What the lines of a program emit: nothing for a label, the bytes of its word for an instruction,
-- up to the first fault.
unfoldable pub emit_lines : List Chars → Result (List ℕ)
emit_lines [] = ok []
emit_lines (l ∷ ls) =
    let rest = emit_lines ls in
    if has_colon l
    then rest
    else assemble (parse_line_inner l) >>= λ i. rest >>= λ bs. ok (word_bytes i.val ++ bs)

-- Bytes emitted behind those that were there.
abbrev behind : List ℕ → Result (List ℕ) → Option (Result (List ℕ))
behind os r = some (r >>= λ bs. ok (os ++ bs))

behind-append :
    (os ws : List ℕ) (r : Result (List ℕ))
    → behind (os ++ ws) r ≡ behind os (r >>= λ bs. ok (ws ++ bs))
behind-append os ws (ok bs) = ap (λ v. some (ok v)) (append_assoc os ws bs)
behind-append os ws (err e) = refl

behind_nil : (r : Result (List ℕ)) → behind [] r ≡ some r
behind_nil (ok bs) = refl
behind_nil (err e) = refl

abbrev Emits : ℕ → Type 0
Emits fuel =
    (q : AsmParser) (os : List ℕ)
    → length q.is < fuel
    → emit_loop fuel q os ≡ behind os (emit_lines q.is)

inst_emits :
    (fuel : ℕ) (q : AsmParser) (os : List ℕ) (r : Result Instruction)
    → Emits fuel
    → length q.is < fuel
    → emit_inst (emit_loop fuel) q os r
      ≡ behind os (r >>= λ i. emit_lines q.is >>= λ bs. ok (word_bytes i.val ++ bs))
unfolding emit_inst
inst_emits fuel q os (ok i) ih h =
    ih q (os ++ word_bytes i.val) h ∙ behind-append os (word_bytes i.val) (emit_lines q.is)
inst_emits fuel q os (err f) ih h = refl

round-Emits :
    (fuel : ℕ) (lines : List Chars) (p : AsmParser) (os : List ℕ)
    → Emits fuel
    → length lines ≤ fuel
    → emit_round (emit_loop fuel) os (parse_lines lines p) ≡ behind os (emit_lines lines)
unfolding emit_lines parse_lines emit_round
round-Emits fuel [] p os ih h = ap (λ v. some (ok v)) (sym (append-nil os))
round-Emits fuel (l ∷ lines) p os ih h = elim (Bool-cases (has_colon l)) [
  | inl e ↦ rw e (round-Emits fuel lines _ os ih (omega arith))
  | inr e ↦ rw e (inst_emits fuel _ os (assemble (parse_line_inner l)) ih (omega arith))
]

emits : (fuel : ℕ) → Emits fuel
unfolding emit_loop
emits zero q os h = absurd (omega arith)
emits (suc fuel) q os h = unfold parse_line in round-Emits fuel q.is q os (emits fuel) (omega arith)

-- The emitter's loop ends on every text, on as many rounds as the text has lines and one more, and
-- writes the bytes, or ends in the fault, that assembling the lines without a colon one after
-- another gives.
pub emit_binary_lem : (text : Chars) → emit_binary text ≡ some (emit_lines (pieces 10 text))
unfolding emit_binary init
emit_binary_lem text =
    emits (suc (length (init text).is)) (init text) [] (omega arith)
    ∙ behind_nil (emit_lines (pieces 10 text))
