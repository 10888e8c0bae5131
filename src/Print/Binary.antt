-- ===== src/Print/Binary.antt =====
-- `pprint` of the six instruction classes, and lib/Debug.cpp.
use rip_sim.Base.{
  ℕ, zero, suc, ◌+◌, ◌-◌, ◌/◌, ◌%◌, Bool, ◌||◌, List, [], ◌∷◌, ◌++◌, ◌==◌, ltb, if◌then◌else◌,
  ◌>>>◌,
}
use rip_sim.Insts.{
  Body, IMnemo, RMnemo, UMnemo, JMnemo, SMnemo, BMnemo, i_body, r_body, u_body, j_body, s_body,
  b_body, Instruction, sign_extend,
}
use rip_sim.Registers.Names.{abi}
use rip_sim.Stats.Names.{i_name}
use rip_sim.Text.Chars.{Chars, codes}
use rip_sim.Text.Numbers.{show_int}
use rip_sim.Asm.Objects.{is_load}
use rip_sim.Asm.Emitter.{word_bytes}
use rip_sim.Print.Assembly.{space, offset_text, mprint_r, mprint_u, mprint_j, mprint_s, mprint_b}

-- The loop over the bits, the highest first, with a blank before some of them.
unfoldable pub bits_text : (ℕ → Bool) → ℕ → ℕ → Chars
bits_text gap zero v = []
bits_text gap (suc k) v =
    let digit = (48 + (v >>> k) % 2) ∷ bits_text gap k v in
    if gap (31 - k) then 32 ∷ digit else digit

-- Where the blanks stand, by class.
abbrev pub gaps : ℕ → Bool
gaps i = i == 7 || i == 12 || i == 17 || i == 20 || i == 25

abbrev pub gaps_i : ℕ → Bool
gaps_i i = i == 12 || i == 17 || i == 20 || i == 25

abbrev pub gaps_uj : ℕ → Bool
gaps_uj i = i == 20 || i == 25

-- `std::hex << std::setw(2) << std::setfill('0')` of a byte.
abbrev hex_digit : ℕ → ℕ
hex_digit d = if ltb d 10 then 48 + d else 87 + d

unfoldable pub hex_bytes : List ℕ → Chars
hex_bytes [] = []
hex_bytes (b ∷ bs) = hex_digit (b / 16) ∷ hex_digit (b % 16) ∷ 32 ∷ hex_bytes bs

-- What follows the assembly text: the sign in between, the bits and the bytes.
abbrev pub binary_text : Chars → (ℕ → Bool) → ℕ → Chars → Chars
binary_text sign gap val bytes =
    sign ++ (bits_text gap 32 val ++ (codes "(BIN) = " ++ (bytes ++ codes "(HEX LE)\n")))

-- The bytes go to `std::cerr` and not to the stream.
abbrev pub pprint_i : IMnemo → ℕ → ℕ → ℕ → ℕ → Chars
pprint_i m rd rs1 imm val =
    let text =
      if is_load m
      then offset_text imm rs1
      else abi rs1 ++ (space ++ show_int (sign_extend 12 imm)) in
    (codes (i_name m) ++ (space ++ (abi rd ++ (space ++ text))))
    ++ binary_text (codes " := ") gaps_i val []

abbrev pprint_r : RMnemo → ℕ → ℕ → ℕ → ℕ → Chars
pprint_r m rd rs1 rs2 val =
    mprint_r m rd rs1 rs2 ++ binary_text (codes " := ") gaps val (hex_bytes (word_bytes val))

abbrev pprint_u : UMnemo → ℕ → ℕ → ℕ → Chars
pprint_u m rd imm val =
    mprint_u m rd imm ++ binary_text (codes " := ") gaps_uj val (hex_bytes (word_bytes val))

abbrev pprint_j : JMnemo → ℕ → ℕ → ℕ → Chars
pprint_j m rd imm val =
    mprint_j m rd imm ++ binary_text (codes " :=") gaps_uj val (hex_bytes (word_bytes val))

abbrev pprint_s : SMnemo → ℕ → ℕ → ℕ → ℕ → Chars
pprint_s m rs1 rs2 imm val =
    mprint_s m rs1 rs2 imm ++ binary_text (codes " :=") gaps val (hex_bytes (word_bytes val))

abbrev pprint_b : BMnemo → ℕ → ℕ → ℕ → ℕ → Chars
pprint_b m rs1 rs2 imm val =
    mprint_b m rs1 rs2 imm ++ binary_text (codes " :=") gaps val (hex_bytes (word_bytes val))

-- The virtual method.
abbrev pub pprint_body : Body → ℕ → Chars
pprint_body (i_body m rd rs1 imm) val = pprint_i m rd rs1 imm val
pprint_body (r_body m rd rs1 rs2) val = pprint_r m rd rs1 rs2 val
pprint_body (u_body m rd imm) val = pprint_u m rd imm val
pprint_body (j_body m rd imm) val = pprint_j m rd imm val
pprint_body (s_body m rs1 rs2 imm) val = pprint_s m rs1 rs2 imm val
pprint_body (b_body m rs1 rs2 imm) val = pprint_b m rs1 rs2 imm val

unfoldable pub pprint : Instruction → Chars
unfolding bits_text hex_bytes word_bytes
pprint i = pprint_body i.body i.val

-- `dumpInstVal`, and the end of `debugInstOnAsm`.
unfoldable pub dump_inst_val : ℕ → Chars
unfolding bits_text hex_bytes word_bytes
dump_inst_val val =
    codes "Binary(BE): "
    ++ (bits_text gaps 32 val
        ++ (codes "\nHex(LE): " ++ (hex_bytes (word_bytes val) ++ codes "\n\n")))

-- The tokens with commas between them.
listed : List Chars → Chars
listed [] = []
listed (t ∷ []) = t
listed (t ∷ u ∷ ts) = t ++ (codes ", " ++ listed (u ∷ ts))

pub debug_inst_on_asm : List Chars → ℕ → Chars
unfolding listed dump_inst_val
debug_inst_on_asm toks val = listed toks ++ (codes "\n" ++ dump_inst_val val)
