-- ===== src/Print/Digits.antt =====
-- The binary digits that `pprint` and lib/Debug.cpp write, read back.
use native.Mathlib.Nat.{pow-suc, div-div-eq-div-mul}
use rip_sim.Base.{
  ℕ, zero, suc, ◌+◌, ◌-◌, ◌*◌, ◌/◌, ◌%◌, ◌^◌, ◌<◌, Bool, true, false, [], ◌∷◌, ◌++◌, ◌||◌, ◌≡◌,
  refl, sym, ap, ◌∙◌, arith, ◌==◌, if◌then◌else◌,
}
use rip_sim.Text.Chars.{Chars, codes, All, All-append}
use rip_sim.Registers.Names.{abi, abi-InLine, InLine}
use rip_sim.Insts.{
  Instruction, Body, IMnemo, SMnemo, BMnemo, addi, sb, beq, sign_extend, i_body, r_body, u_body,
  j_body, s_body, b_body,
}
use rip_sim.Stats.Names.{i_name, r_name, u_name, j_name, s_name, b_name}
use rip_sim.Text.Numbers.{show_int, show_int-Plain}
use rip_sim.Asm.Objects.{is_load}
use rip_sim.Print.Lines.{Plain-InLine}
use rip_sim.Print.Assembled.{r_name-Plain, u_name-Plain, j_name-Plain}
use rip_sim.Print.Assembly.{space, offset_text, mprint_r, mprint_u, mprint_j, mprint_s, mprint_b}
use rip_sim.Print.Binary.{bits_text, binary_text, gaps, gaps_i, gaps_uj, pprint_body, pprint}

-- What follows the first colon.
abbrev behind_colon : Chars → Chars
behind_colon [] = []
behind_colon (c ∷ s) = let rest = behind_colon s in if c == 58 then s else rest

-- The number that the binary digits before `(` spell behind `n`; other characters are left out.
abbrev read_bits : ℕ → Chars → ℕ
read_bits n [] = n
read_bits n (c ∷ s) =
    let rest = read_bits (if c == 48 || c == 49 then n * 2 + (c - 48) else n) s in
    if c == 40 then n else rest

abbrev pub read_text : Chars → ℕ
read_text s = read_bits 0 (behind_colon s)

div_pow_suc : (k v : ℕ) → v / 2 ^ suc k ≡ v / 2 ^ k / 2
div_pow_suc k v = ap (λ (t : ℕ). v / t) (pow-suc 2 k) ∙ sym (div-div-eq-div-mul v (2 ^ k) 2)

read_bits-bits_text :
    (gap : ℕ → Bool) (k v : ℕ) (rest : Chars)
    → read_bits (v / 2 ^ k) (bits_text gap k v ++ 40 ∷ rest) ≡ v
unfolding bits_text
read_bits-bits_text gap zero v rest = omega arith
read_bits-bits_text gap (suc k) v rest =
    let e : v / 2 ^ suc k * 2 + v / 2 ^ k % 2 ≡ v / 2 ^ k = omega (arith, div_pow_suc k v) in
    let ih = read_bits-bits_text gap k v rest in ground arith

behind_colon-append : (s t : Chars) → All InLine s → behind_colon (s ++ t) ≡ behind_colon t
behind_colon-append [] t h = refl
behind_colon-append (c ∷ s) t (hc, h) = let ih = behind_colon-append s t h in ground arith

-- The two signs between the assembly and the bits.
read_text-spaced :
    (s : Chars) (gap : ℕ → Bool) (v : ℕ) (bytes : Chars)
    → All InLine s
    → v < 2 ^ 32
    → read_text (s ++ binary_text (codes " := ") gap v bytes) ≡ v
read_text-spaced s gap v bytes h small =
    let e : v / 2 ^ 32 ≡ 0 = omega arith in
    ap (read_bits 0) (behind_colon-append s (binary_text (codes " := ") gap v bytes) h)
    ∙ ap
        (λ n.
          read_bits n (bits_text gap 32 v ++ (codes "(BIN) = " ++ (bytes ++ codes "(HEX LE)\n"))))
        (sym e)
    ∙ read_bits-bits_text gap 32 v _

read_text-close :
    (s : Chars) (gap : ℕ → Bool) (v : ℕ) (bytes : Chars)
    → All InLine s
    → v < 2 ^ 32
    → read_text (s ++ binary_text (codes " :=") gap v bytes) ≡ v
read_text-close s gap v bytes h small =
    let e : v / 2 ^ 32 ≡ 0 = omega arith in
    ap (read_bits 0) (behind_colon-append s (binary_text (codes " :=") gap v bytes) h)
    ∙ ap
        (λ n.
          read_bits n (bits_text gap 32 v ++ (codes "(BIN) = " ++ (bytes ++ codes "(HEX LE)\n"))))
        (sym e)
    ∙ read_bits-bits_text gap 32 v _

spaced : (s t : Chars) → All InLine s → All InLine t → All InLine (s ++ (space ++ t))
spaced s t h k = All-append InLine s (32 ∷ t) h (omega arith, k)

int-InLine : (v : ℕ) → All InLine (show_int v)
int-InLine v = Plain-InLine (show_int v) (show_int-Plain v)

i_name-InLine : (m : IMnemo) → All InLine (codes (i_name m))
unfolding i_name
i_name-InLine addi = omega arith
i_name-InLine _ = omega arith

s_name-InLine : (m : SMnemo) → All InLine (codes (s_name m))
unfolding s_name
s_name-InLine sb = omega arith
s_name-InLine _ = omega arith

b_name-InLine : (m : BMnemo) → All InLine (codes (b_name m))
unfolding b_name
b_name-InLine beq = omega arith
b_name-InLine _ = omega arith

offset-InLine : (imm r : ℕ) → All InLine (offset_text imm r)
offset-InLine imm r =
    let v = sign_extend 12 imm in
    (
      omega arith,
      All-append InLine (show_int v) (codes ")" ++ abi r) (int-InLine v)
          (omega arith, abi-InLine r),
    )

i_operands-InLine :
    (load : Bool) (rs1 imm : ℕ)
    → All InLine
        (if load then offset_text imm rs1 else abi rs1 ++ (space ++ show_int (sign_extend 12 imm)))
i_operands-InLine true rs1 imm = offset-InLine imm rs1
i_operands-InLine false rs1 imm =
    spaced (abi rs1) _ (abi-InLine rs1) (int-InLine (sign_extend 12 imm))

pprint_body-val : (b : Body) (v : ℕ) → v < 2 ^ 32 → read_text (pprint_body b v) ≡ v
pprint_body-val (i_body m rd rs1 imm) v h =
    read_text-spaced _ gaps_i v []
      (spaced (codes (i_name m)) _ (i_name-InLine m)
        (spaced (abi rd) _ (abi-InLine rd) (i_operands-InLine (is_load m) rs1 imm)))
      h
pprint_body-val (r_body m rd rs1 rs2) v h =
    read_text-spaced (mprint_r m rd rs1 rs2) gaps v _
      (spaced (codes (r_name m)) _ (Plain-InLine _ (r_name-Plain m).0)
        (spaced (abi rd) _ (abi-InLine rd) (spaced (abi rs1) _ (abi-InLine rs1) (abi-InLine rs2))))
      h
pprint_body-val (u_body m rd imm) v h =
    read_text-spaced (mprint_u m rd imm) gaps_uj v _
      (spaced (codes (u_name m)) _ (Plain-InLine _ (u_name-Plain m).0)
        (spaced (abi rd) _ (abi-InLine rd) (int-InLine (sign_extend 20 imm))))
      h
pprint_body-val (j_body m rd imm) v h =
    read_text-close (mprint_j m rd imm) gaps_uj v _
      (spaced (codes (j_name m)) _ (Plain-InLine _ (j_name-Plain m).0)
        (spaced (abi rd) _ (abi-InLine rd) (int-InLine (sign_extend 21 imm))))
      h
pprint_body-val (s_body m rs1 rs2 imm) v h =
    read_text-close (mprint_s m rs1 rs2 imm) gaps v _
      (spaced (codes (s_name m)) _ (s_name-InLine m)
        (spaced (abi rs2) _ (abi-InLine rs2) (offset-InLine imm rs1)))
      h
pprint_body-val (b_body m rs1 rs2 imm) v h =
    read_text-close (mprint_b m rs1 rs2 imm) gaps v _
      (spaced (codes (b_name m)) _ (b_name-InLine m) (
        spaced (abi rs1) _ (abi-InLine rs1)
          (All-append InLine (abi rs2) _ (abi-InLine rs2) (int-InLine (sign_extend 13 imm)))))
      h

-- Of the text that pprint writes for an object with a 32-bit word, whatever its class, the binary
-- digits between the first colon and the next opening parenthesis spell that word.
pub pprint-val : (i : Instruction) → i.val < 2 ^ 32 → read_text (pprint i) ≡ i.val
unfolding pprint
pprint-val i h = pprint_body-val i.body i.val h
