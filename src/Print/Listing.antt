-- ===== src/Print/Listing.antt =====
-- A printed program, assembled.
use rip_sim.Base.{
  ℕ, ◌<◌, ◌%◌, ◌+◌, ◌*◌, ◌^◌, List, [], ◌∷◌, ◌++◌, ◌≡◌, refl, ap, ◌∙◌, arith, Option, bit_or, ◌<<<◌,
  bit_or_split, bit_or-zero, bit_or_lt, bit_or_ge, ◌≤◌, some, ok, false, u8, ◌>>>◌,
}
use mathlib.Core.Path.{subst}
use rip_sim.Insts.{
  srai, Instruction, RMnemo, IMnemo, UMnemo, JMnemo, new_i, new_r, new_u, new_j, new_s, new_b, Body,
  i_body, r_body, u_body, j_body, s_body, b_body,
}
use rip_sim.Decoder.{decode}
use rip_sim.Decoder.Encodes.{decode-new_r, decode-new_u, decode-new_j}
use rip_sim.Decoder.Immediate.{decode-new_i, decoded_i}
use rip_sim.Text.Chars.{Chars, All}
use rip_sim.Text.Split.{pieces, pieces_line}
use rip_sim.Asm.Parser.{has_colon, parse_line_inner}
use rip_sim.Asm.Emitter.{assemble, word_bytes, emit_binary}
use rip_sim.Asm.Rounds.{emit_lines, emit_binary_lem}
use rip_sim.Print.Assembly.{mprint}
use rip_sim.Print.Assembled.{
  Reassembles, new_r-Reassembles, new_u-Reassembles, new_j-Reassembles, body-new_r, body-new_u,
  body-new_j,
}
use rip_sim.Print.Immediate.{HasImmediate, kept, new_i-Reassembles, body-new_i}
use rip_sim.Print.Lines.{Line-no_colon, Line-no_newline, parse_line_inner-Line}
use rip_sim.Simulator.Input.{file_words}

-- The instructions that `mprint` prints in a form that the assembler takes, with fields in range:
-- the R-, U- and J-type ones, the latter with an even offset, and those of the I-type that are
-- printed with rs1 and the immediate.
pub data Listable : Instruction → Type 0 where
  list_r : (m : RMnemo) (d a b : ℕ) → d < 32 → a < 32 → b < 32 → Listable (new_r m d a b)
  list_u : (m : UMnemo) (d imm : ℕ) → d < 32 → imm < 2 ^ 20 → Listable (new_u m d imm)
  list_j : (m : JMnemo) (d imm : ℕ) → d < 32 → imm < 2 ^ 21 → imm % 2 ≡ 0 → Listable (new_j m d imm)
  list_i :
      (m : IMnemo) (d a imm : ℕ)
      → d < 32
      → a < 32
      → imm < 2 ^ 12
      → HasImmediate m
      → Listable (new_i m d a imm)

-- The object that the assembler builds from the line of another: the same, but for srai.
abbrev pub assembled : Body → Instruction
assembled (i_body m d a imm) = new_i m d a (kept m imm)
assembled (r_body m d a b) = new_r m d a b
assembled (u_body m d imm) = new_u m d imm
assembled (j_body m d imm) = new_j m d imm
assembled (s_body m a b imm) = new_s m a b imm
assembled (b_body m a b imm) = new_b m a b imm

-- What the word of that object means to the decoder: the first object, but for some of the I-type.
abbrev pub decoded : Body → Option Instruction
decoded (i_body srai d a imm) = some (new_i srai d a (imm % 32))
decoded (i_body m d a imm) = decoded_i m d a imm
decoded (r_body m d a b) = some (new_r m d a b)
decoded (u_body m d imm) = some (new_u m d imm)
decoded (j_body m d imm) = some (new_j m d imm)
decoded (s_body m a b imm) = some (new_s m a b imm)
decoded (b_body m a b imm) = some (new_b m a b imm)

pub Listable-Reassembles : {i : Instruction} → Listable i → Reassembles i (assembled i.body)
Listable-Reassembles (list_r m d a b hd ha hb) =
    subst (λ x. Reassembles (new_r m d a b) (assembled x)) (body-new_r m d a b hd ha hb)
      (new_r-Reassembles m d a b hd ha hb)
Listable-Reassembles (list_u m d imm hd hi) =
    subst (λ x. Reassembles (new_u m d imm) (assembled x)) (body-new_u m d imm hd hi)
      (new_u-Reassembles m d imm hd hi)
Listable-Reassembles (list_j m d imm hd hi even) =
    subst (λ x. Reassembles (new_j m d imm) (assembled x)) (body-new_j m d imm hd hi)
      (new_j-Reassembles m d imm hd hi)
Listable-Reassembles (list_i m d a imm hd ha hi h) =
    subst (λ x. Reassembles (new_i m d a imm) (assembled x)) (body-new_i m d a imm hd ha hi)
      (new_i-Reassembles m d a imm hd ha hi h)

-- Bit 10 leaves the lower five bits as they are, and the upper seven are not all 0.
bit_10 : (imm : ℕ) → (bit_or imm (1 <<< 10) % 32 ≡ imm % 32) × (32 ≤ bit_or imm (1 <<< 10))
bit_10 imm =
    let low = bit_or_split 5 imm 1024 in
    let zero = bit_or-zero (imm % 32) in (omega arith, omega (arith, bit_or_ge imm 1024))

decode-assembled_i :
    (m : IMnemo) (d a imm : ℕ)
    → d < 32
    → a < 32
    → imm < 2 ^ 12
    → decode (new_i m d a (kept m imm)).val ≡ decoded (i_body m d a imm)
decode-assembled_i srai d a imm hd ha hi =
    let b = bit_10 imm in
    decode-new_i srai d a (bit_or imm (1 <<< 10)) hd ha (bit_or_lt 12 imm 1024 hi (omega arith))
    ∙ ground arith
decode-assembled_i m d a imm hd ha hi = decode-new_i m d a imm hd ha hi

pub decode-assembled :
    {i : Instruction} → Listable i → decode (assembled i.body).val ≡ decoded i.body
decode-assembled (list_r m d a b hd ha hb) =
    rw (← body-new_r m d a b hd ha hb) (decode-new_r m d a b hd ha hb)
decode-assembled (list_u m d imm hd hi) =
    rw (← body-new_u m d imm hd hi) (decode-new_u m d imm hd hi)
decode-assembled (list_j m d imm hd hi even) =
    rw (← body-new_j m d imm hd hi) (decode-new_j m d imm hd hi even)
decode-assembled (list_i m d a imm hd ha hi h) =
    rw (← body-new_i m d a imm hd ha hi) (decode-assembled_i m d a imm hd ha hi)

-- Each instruction on a line of its own.
abbrev pub listing : List Instruction → Chars
listing [] = []
listing (i ∷ is) = mprint i.body ++ 10 ∷ listing is

-- The bytes of the words of what the assembler builds from them, one after another.
abbrev pub image : List Instruction → List ℕ
image [] = []
image (i ∷ is) = word_bytes (assembled i.body).val ++ image is

emit_lines_inst :
    (l : Chars) (ls : List Chars) (i : Instruction) (bs : List ℕ)
    → has_colon l ≡ false
    → assemble (parse_line_inner l) ≡ ok i
    → emit_lines ls ≡ ok bs
    → emit_lines (l ∷ ls) ≡ ok (word_bytes i.val ++ bs)
unfolding emit_lines
emit_lines_inst l ls i bs c a e = rw (c, a, e)

emit_lines-listing :
    (is : List Instruction) → All Listable is → emit_lines (pieces 10 (listing is)) ≡ ok (image is)
emit_lines-listing [] h = unfold emit_lines pieces in refl
emit_lines-listing (i ∷ is) (hi, h) =
    let r = Listable-Reassembles hi in
    ap emit_lines
      (pieces_line 10 (mprint i.body) (listing is) (Line-no_newline (mprint i.body) r.line))
    ∙ emit_lines_inst (mprint i.body) (pieces 10 (listing is)) (assembled i.body) (image is)
        (Line-no_colon (mprint i.body) r.line)
        (ap assemble (parse_line_inner-Line (mprint i.body) r.mnemo r.operands r.line)
          ∙ r.assembles)
        (emit_lines-listing is h)

-- The assembler makes these bytes of the listing.
pub emit_binary-listing :
    (is : List Instruction) → All Listable is → emit_binary (listing is) ≡ some (ok (image is))
emit_binary-listing is h = emit_binary_lem (listing is) ∙ ap some (emit_lines-listing is h)

-- What a binary file gives back.
pub file_words-word_bytes :
    (v : ℕ) (bs : List ℕ) → v < 2 ^ 32 → file_words (word_bytes v ++ bs) ≡ v ∷ file_words bs
unfolding file_words word_bytes
file_words-word_bytes v bs h =
    let e : u8 v + u8 (v >>> 8) * 2 ^ 8 + u8 (v >>> 16) * 2 ^ 16 + u8 (v >>> 24) * 2 ^ 24 ≡ v =
      omega arith in
    ap (λ w. w ∷ file_words bs) e
