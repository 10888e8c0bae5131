-- ===== src/Asm/Offsets.antt =====
-- Loads and stores with an operand `offset(reg)`: the register is never read.
use rip_sim.Base.{
  ℕ, ◌%◌, ◌^◌, Bool, true, false, List, [], ◌∷◌, ◌≡◌, refl, sym, ◌∙◌, arith, Option, none, some, ok,
  Result, err, ◌>>=◌, Bool-cases, inl, inr,
}
use mathlib.Core.Path.{subst}
use rip_sim.Insts.{
  new_u, new_j, IMnemo, SMnemo, UMnemo, JMnemo, Body, i_body, s_body, new_i, new_s, Instruction,
}
use rip_sim.Text.Chars.{Chars, length}
use rip_sim.Text.Numbers.{stoi}
use rip_sim.Asm.Operands.{
  parse_offset_reg, take_while, drop_while, in_number, in_identifier, bitset5, bits_value, all_bits,
  tok,
}
use rip_sim.Asm.Objects.{
  offset_operands, i_operands, reg_tok, int_tok, i_from_tokens, s_from_tokens, u_from_tokens,
  j_from_tokens, is_load,
}
use rip_sim.Asm.Kinds.{
  i_type_kinds, r_type_kinds, u_type_kinds, j_type_kinds, s_type_kinds, b_type_kinds,
}
use rip_sim.Asm.Emitter.{make, assemble, new_instruction}

-- What is taken for the register.
abbrev identifier : Chars → Chars
identifier s = take_while in_identifier (drop_while in_number s)

-- It holds no binary digit at its head, so only the empty text makes a bit set.
bitset5-identifier : (s : Chars) (r : ℕ) → bitset5 (identifier s) ≡ ok r → r ≡ 0
unfolding bitset5 take_while drop_while bits_value all_bits
bitset5-identifier [] r h = ground arith
bitset5-identifier (c ∷ s) r h = elim (Bool-cases (in_number c)) [
  | inl e ↦ bitset5-identifier s r (rw e at h)
  | inr e ↦ ground arith
]

-- The rest of `offset_operands`, one step at a time.
from_bits :
    (b : Result ℕ) (n : ℕ) (p : ℕ × ℕ)
    → ((r : ℕ) → b ≡ ok r → r ≡ 0)
    → (b >>= λ rs1. ok (rs1, n % 2 ^ 12)) ≡ ok p
    → p.0 ≡ 0
from_bits (ok r) n p zeros h = ground (arith, zeros r refl)
from_bits (err e) n p zeros h = cc

abbrev operands_of : ℕ × Chars → Result (ℕ × ℕ)
operands_of off_reg = bitset5 off_reg.1 >>= λ rs1. ok (rs1, off_reg.0 % 2 ^ 12)

from_number :
    (c : Result ℕ) (t : Chars) (p : ℕ × ℕ)
    → (c >>= λ num. operands_of (num, identifier t)) ≡ ok p
    → p.0 ≡ 0
from_number (ok n) t p h = from_bits (bitset5 (identifier t)) n p (bitset5-identifier t) h
from_number (err e) t p h = cc

parse_then :
    (c : Result ℕ) (s : Chars)
    → ((c >>= λ num. ok (num, s)) >>= operands_of) ≡ (c >>= λ num. operands_of (num, s))
parse_then (ok n) s = refl
parse_then (err e) s = refl

from_tok :
    (t : Result Chars) (p : ℕ × ℕ)
    → (t >>= λ u. parse_offset_reg u >>= operands_of) ≡ ok p
    → p.0 ≡ 0
unfolding parse_offset_reg
from_tok (ok u) p h =
    let c = stoi (take_while in_number u) in
    from_number c u p (sym (parse_then c (identifier u)) ∙ h)
from_tok (err e) p h = cc

offset_operands-zero : (toks : List Chars) (p : ℕ × ℕ) → offset_operands toks ≡ ok p → p.0 ≡ 0
unfolding offset_operands
offset_operands-zero toks p h = from_tok (tok toks 2) p h

-- The base register of an object of the two classes that have one.
abbrev pub BaseZero : Body → Type 0
BaseZero (i_body m rd rs1 imm) = rs1 ≡ 0
BaseZero (s_body m rs1 rs2 imm) = rs1 ≡ 0
BaseZero _ = Unit

make-elim :
    {M P : Type 0} (o : Option M) (sized : Bool) (new : M → Result Instruction)
    (other : Result Instruction) (i : Instruction)
    → ((m : M) → sized ≡ true → new m ≡ ok i → P)
    → (other ≡ ok i → P)
    → make o sized new other ≡ ok i
    → P
make-elim none sized new other i yn yo h = yo h
make-elim (some m) true new other i yn yo h = yn m refl h
make-elim (some m) false new other i yn yo h = cc

BaseZero-new_i :
    (m : IMnemo) (d a k : ℕ) {i : Instruction} → a ≡ 0 → new_i m d a k ≡ i → BaseZero i.body
BaseZero-new_i m d a k e h = subst (λ x. BaseZero x.body) h (unfold new_i in omega arith)

BaseZero-new_s :
    (m : SMnemo) (a b k : ℕ) {i : Instruction} → a ≡ 0 → new_s m a b k ≡ i → BaseZero i.body
BaseZero-new_s m a b k e h = subst (λ x. BaseZero x.body) h (unfold new_s in omega arith)

BaseZero-new_u : (m : UMnemo) (d k : ℕ) → BaseZero (new_u m d k).body
unfolding new_u
BaseZero-new_u m d k = tt

BaseZero-new_j : (m : JMnemo) (d k : ℕ) → BaseZero (new_j m d k).body
unfolding new_j
BaseZero-new_j m d k = tt

module _ (i : Instruction) where
  i_made :
      (m : IMnemo) (rd : Result ℕ) (ops : Result (ℕ × ℕ)) (t : Result Chars)
      (imm : ℕ × ℕ → Chars → ℕ)
      → ((p : ℕ × ℕ) → ops ≡ ok p → p.0 ≡ 0)
      → (rd >>= λ d. ops >>= λ p. t >>= λ u. ok (new_i m d p.0 (imm p u))) ≡ ok i
      → BaseZero i.body
  i_made m (err e) ops t imm z h = cc
  i_made m (ok d) (err e) t imm z h = cc
  i_made m (ok d) (ok p) (err e) imm z h = cc
  i_made m (ok d) (ok p) (ok u) imm z h = BaseZero-new_i m d p.0 (imm p u) {i = i} (z p refl) (cc)

  s_made :
      (m : SMnemo) (rs2 : Result ℕ) (ops : Result (ℕ × ℕ))
      → ((p : ℕ × ℕ) → ops ≡ ok p → p.0 ≡ 0)
      → (rs2 >>= λ b. ops >>= λ p. ok (new_s m p.0 b p.1)) ≡ ok i
      → BaseZero i.body
  s_made m (err e) ops z h = cc
  s_made m (ok b) (err e) z h = cc
  s_made m (ok b) (ok p) z h = BaseZero-new_s m p.0 b p.1 {i = i} (z p refl) (cc)

  other_made :
      (new : ℕ → ℕ → Instruction) (rd imm : Result ℕ)
      → ((d n : ℕ) → BaseZero (new d n).body)
      → (rd >>= λ d. imm >>= λ n. ok (new d n)) ≡ ok i
      → BaseZero i.body
  other_made new (err e) imm z h = cc
  other_made new (ok d) (err e) z h = cc
  other_made new (ok d) (ok n) z h =
      let e : new d n ≡ i = cc in subst (λ (x : Instruction). BaseZero x.body) e (z d n)

i_operands-zero :
    (m : IMnemo) (toks : List Chars) (p : ℕ × ℕ)
    → length toks ≡ 3
    → i_operands m toks ≡ ok p
    → p.0 ≡ 0
unfolding i_operands
i_operands-zero m toks p n h = elim (Bool-cases (is_load m)) [
  | inl e ↦ offset_operands-zero toks p (rw (n, e) at h)
  | inr e ↦ let f = rw (n, e) at h in absurd (cc f)
]

i_zero :
    (m : IMnemo) (toks : List Chars) (i : Instruction)
    → length toks ≡ 3
    → i_from_tokens m toks ≡ ok i
    → BaseZero i.body
unfolding i_from_tokens
i_zero m toks i n h =
    i_made i m (reg_tok toks 1) (i_operands m toks) (tok toks 0) _ (λ p. i_operands-zero m toks p n)
      h

s_zero :
    (m : SMnemo) (toks : List Chars) (i : Instruction)
    → s_from_tokens m toks ≡ ok i
    → BaseZero i.body
unfolding s_from_tokens
s_zero m toks i h = s_made i m (reg_tok toks 1) (offset_operands toks) (offset_operands-zero toks) h

u_zero :
    (m : UMnemo) (toks : List Chars) (i : Instruction)
    → u_from_tokens m toks ≡ ok i
    → BaseZero i.body
unfolding u_from_tokens
u_zero m toks i h =
    other_made i (λ d n. new_u m d (n % 2 ^ 20)) (reg_tok toks 1) (int_tok toks 2)
      (λ d n. BaseZero-new_u m d (n % 2 ^ 20)) h

j_zero :
    (m : JMnemo) (toks : List Chars) (i : Instruction)
    → j_from_tokens m toks ≡ ok i
    → BaseZero i.body
unfolding j_from_tokens
j_zero m toks i h =
    other_made i (λ d n. new_j m d (n % 2 ^ 21)) (reg_tok toks 1) (int_tok toks 2)
      (λ d n. BaseZero-new_j m d (n % 2 ^ 21)) h

new_instruction-BaseZero :
    (mnemo : Chars) (toks : List Chars) (i : Instruction)
    → length toks ≡ 3
    → new_instruction mnemo toks ≡ ok i
    → BaseZero i.body
unfolding new_instruction
new_instruction-BaseZero mnemo toks i n =
    make-elim (i_type_kinds mnemo) _ _ _ i (λ m _. i_zero m toks i n)
      (make-elim (r_type_kinds mnemo) _ _ _ i (λ m s. absurd (ground arith))
        (make-elim (u_type_kinds mnemo) _ _ _ i (λ m _. u_zero m toks i)
          (make-elim (j_type_kinds mnemo) _ _ _ i (λ m _. j_zero m toks i)
            (make-elim (s_type_kinds mnemo) _ _ _ i (λ m _. s_zero m toks i)
              (make-elim (b_type_kinds mnemo) _ _ _ i (λ m s. absurd (ground arith)) (λ e. cc))))))

-- An instruction that the assembler makes of three tokens has x0 as its base register if it is of
-- the I or S type: the register of the form offset(register) is never read.
pub assemble-BaseZero :
    (toks : List Chars) (i : Instruction) → length toks ≡ 3 → assemble toks ≡ ok i → BaseZero i.body
unfolding assemble
assemble-BaseZero [] i n h = cc
assemble-BaseZero (t ∷ ts) i n h = new_instruction-BaseZero t (t ∷ ts) i n h
