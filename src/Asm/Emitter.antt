-- ===== src/Asm/Emitter.antt =====
-- lib/Assembler/BinaryEmitter.cpp. The output is the list of the bytes that are written.
use rip_sim.Base.{
  ℕ, zero, suc, Bool, true, false, ◌||◌, List, [], ◌∷◌, ◌++◌, ◌==◌, Option, none, some, Result, ok,
  err, assertion, out_of_bounds, guard, ◌>>◌, u8, ◌>>>◌,
}
use rip_sim.Insts.{Instruction}
use rip_sim.Text.Chars.{Chars, length}
use rip_sim.Asm.Kinds.{
  i_type_kinds, r_type_kinds, u_type_kinds, j_type_kinds, s_type_kinds, b_type_kinds,
}
use rip_sim.Asm.Objects.{
  i_from_tokens, r_from_tokens, u_from_tokens, j_from_tokens, s_from_tokens, b_from_tokens,
}
use rip_sim.Asm.Parser.{AsmParser, init, parse_line}

-- `Instruction::emitBinary`: the four bytes of the word as they lie in memory.
unfoldable pub word_bytes : ℕ → List ℕ
word_bytes v = u8 v ∷ u8 (v >>> 8) ∷ u8 (v >>> 16) ∷ u8 (v >>> 24) ∷ []

-- The constructor that is called when the lookup succeeds, with the assert on the token number.
abbrev pub make :
    {M : Type 0}
    → Option M
    → Bool
    → (M → Result Instruction)
    → Result Instruction
    → Result Instruction
make none sized new other = other
make (some m) sized new other = guard sized assertion >> new m

-- The chain of lookups.
unfoldable pub new_instruction : Chars → List Chars → Result Instruction
unfolding i_type_kinds r_type_kinds u_type_kinds j_type_kinds s_type_kinds b_type_kinds
    i_from_tokens r_from_tokens u_from_tokens j_from_tokens s_from_tokens b_from_tokens
new_instruction mnemo toks =
    let n = length toks in
    make (i_type_kinds mnemo) (n == 4 || n == 3) (λ m. i_from_tokens m toks)
      (make (r_type_kinds mnemo) (n == 4) (λ m. r_from_tokens m toks)
        (make (u_type_kinds mnemo) (n == 3) (λ m. u_from_tokens m toks)
          (make (j_type_kinds mnemo) (n == 3) (λ m. j_from_tokens m toks)
            (make (s_type_kinds mnemo) (n == 3) (λ m. s_from_tokens m toks)
              (make (b_type_kinds mnemo) (n == 4) (λ m. b_from_tokens m toks) (err assertion))))))

-- A line without tokens has no `Toks[0]`.
unfoldable pub assemble : List Chars → Result Instruction
unfolding new_instruction
assemble [] = err out_of_bounds
assemble (mnemo ∷ ops) = new_instruction mnemo (mnemo ∷ ops)

abbrev pub Output : Type 0
Output = Option (Result (List ℕ))

-- The body of the loop behind `getTokens`, and the loop's test; `loop` is the loop itself.
unfoldable pub emit_inst :
    (AsmParser → List ℕ → Output) → AsmParser → List ℕ → Result Instruction → Output
unfolding word_bytes
emit_inst loop p os (ok inst) = loop p (os ++ word_bytes inst.val)
emit_inst loop p os (err e) = some (err e)

unfoldable pub emit_round : (AsmParser → List ℕ → Output) → List ℕ → Bool × AsmParser → Output
unfolding emit_inst assemble
emit_round loop os (false, p) = some (ok os)
emit_round loop os (true, p) = emit_inst loop p os (assemble p.toks)

-- It goes on as long as `parseLine` reads an instruction; `none` is the end of the fuel.
unfoldable pub emit_loop : ℕ → AsmParser → List ℕ → Output
unfolding parse_line emit_round
emit_loop zero p os = none
emit_loop (suc fuel) p os = emit_round (emit_loop fuel) os (parse_line p)

-- `BinaryEmitter` on a text. Each round reads a line, so one round more than lines is enough.
unfoldable pub emit_binary : Chars → Option (Result (List ℕ))
unfolding emit_loop init
emit_binary text = emit_loop (suc (length (init text).is)) (init text) []
