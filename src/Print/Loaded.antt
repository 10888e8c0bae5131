-- ===== src/Print/Loaded.antt =====
-- From a printed program through the assembler into the memory of the instruction-level simulator.
use rip_sim.Base.{
  ℕ, zero, suc, ◌<◌, ◌≤◌, ◌+◌, ◌*◌, ◌^◌, List, [], ◌∷◌, ◌≡◌, refl, ap, ◌∙◌, arith, Option, none,
  some, ok,
}
use mathlib.Core.List.{map}
use mathlib.Core.Path.{subst}
use rip_sim.Insts.{Instruction}
use rip_sim.Decoder.{decode}
use rip_sim.Encoding.Sums.{
  val-new_r, val-new_u, val-new_j, val-new_i, i_funct3-lt, i_opcode-lt, r_funct3-lt, r_funct7-lt,
  u_opcode-lt, j_opcode-eq,
}
use rip_sim.Text.Chars.{All}
use rip_sim.Memory.{read_word}
use rip_sim.Simulator.{Simulator, init}
use rip_sim.Simulator.Input.{file_words}
use rip_sim.Simulator.Loading
use rip_sim.Simulator.Loading.{AllWords, nth, Starts, init-Starts}
use rip_sim.Asm.Emitter.{emit_binary}
use rip_sim.Print.Assembled.{body-new_r, body-new_u, body-new_j}
use rip_sim.Print.Immediate.{body-new_i, kept}
use rip_sim.Print.Listing.{
  Listable, list_r, list_u, list_j, list_i, assembled, decode-assembled, decoded, listing, image,
  emit_binary-listing, file_words-word_bytes,
}

-- The word of what is assembled from a line.
abbrev pub word : Instruction → ℕ
word i = (assembled i.body).val

Listable-word : {i : Instruction} → Listable i → word i < 2 ^ 32
Listable-word (list_r m d a b hd ha hb) =
    rw (← body-new_r m d a b hd ha hb)
      (omega (arith, val-new_r m d a b, r_funct3-lt m, r_funct7-lt m))
Listable-word (list_u m d imm hd hi) =
    rw (← body-new_u m d imm hd hi) (omega (arith, val-new_u m d imm, u_opcode-lt m))
Listable-word (list_j m d imm hd hi even) =
    rw (← body-new_j m d imm hd hi) (omega (arith, val-new_j m d imm, j_opcode-eq m))
Listable-word (list_i m d a imm hd ha hi h) =
    rw (← body-new_i m d a imm hd ha hi)
      (omega (arith, val-new_i m d a (kept m imm), i_funct3-lt m, i_opcode-lt m))

abbrev pub vals : List Instruction → List ℕ
vals = map word

file_words-image : (is : List Instruction) → All Listable is → file_words (image is) ≡ vals is
file_words-image [] h = unfold file_words in refl
file_words-image (i ∷ is) (hi, h) =
    file_words-word_bytes (word i) (image is) (Listable-word hi)
    ∙ ap (◌∷◌ (word i)) (file_words-image is h)

AllWords-vals : (is : List Instruction) → All Listable is → AllWords (vals is)
AllWords-vals [] h = tt
AllWords-vals (i ∷ is) (hi, h) = (Listable-word hi, AllWords-vals is h)

abbrev pub at : List Instruction → ℕ → Option Instruction
at [] k = none
at (i ∷ is) zero = some i
at (i ∷ is) (suc k) = at is k

nth-vals :
    (is : List Instruction) (k : ℕ) (i : Instruction)
    → All Listable is
    → at is k ≡ some i
    → (nth (vals is) k ≡ some (word i)) × (decode (word i) ≡ decoded i.body)
nth-vals [] k i h e = cc
nth-vals (j ∷ is) zero i (hj, h) e =
    let s : j ≡ i = cc in
    (
      ap (λ x. some (word x)) s,
      subst (λ x. decode (word x) ≡ decoded x.body) s (decode-assembled hj),
    )
nth-vals (j ∷ is) (suc k) i (hj, h) e = nth-vals is k i h e

-- The assembler succeeds, and the simulator that is started on its output has PC at the base and
-- finds at every fourth address a word that means the next instruction to the decoder.
pub record Loaded (is : List Instruction) (size base : ℕ) (spi : Option ℕ) : Type 0 where
  pub bytes : List ℕ
  pub emits : emit_binary (listing is) ≡ some (ok bytes)
  pub started : Simulator
  pub starts : init (file_words bytes) size base spi ≡ ok started
  pub at_base : started.machine_state.pc ≡ base
  pub decodes :
      (k : ℕ) (i : Instruction)
      → at is k ≡ some i
      → (w : ℕ) × (read_word started.machine_state.mem (base + 4 * k) ≡ ok w)
        × (decode w ≡ decoded i.body)

-- A program of R-type instructions, U-type ones, J-type ones with an even offset, and I-type ones
-- of a mnemonic that mprint prints with rs1 and the immediate (addi, slti, sltiu, xori, ori, andi,
-- jalr, slli, srli, srai, ext, extx), all with fields in range, printed one to a line, is
-- assembled. The instruction-level simulator started on the bytes, in a DRAM that they fit in, at
-- a base with which no address wraps at 2 ^ 64, puts PC at the base and finds at the base plus
-- four times each index a word that decodes to the instruction of that index, with these
-- exceptions: srli with an immediate of 32 or more, and srai with any, decode to srai with the low
-- five bits of the immediate; ext and extx decode to extx with all fields 0 where those bits are
-- 0, to ext with all fields 0 where they are 1, and to nothing otherwise.
pub listing-Loaded :
    (is : List Instruction) (size base : ℕ) (spi : Option ℕ)
    → All Listable is
    → 4 * Loading.length (vals is) ≤ size
    → base + 4 * Loading.length (vals is) < 2 ^ 64
    → Loaded is size base spi
listing-Loaded is size base spi h fits wrap =
    let s = init-Starts (vals is) size base spi (AllWords-vals is h) fits wrap in
    record {
      bytes = image is;
      emits = emit_binary-listing is h;
      started = s.after;
      starts = ap (λ ws. init ws size base spi) (file_words-image is h) ∙ s.returns;
      at_base = s.at_base;
      decodes = λ k i e. let n = nth-vals is k i h e in (word i, s.words k (word i) n.0, n.1);
    }
