-- ===== src/Print/Assembly.antt =====
-- `mprint` of the six instruction classes.
use rip_sim.Base.{
  ℕ, Bool, true, false, not, ◌&&◌, ◌||◌, List, [], ◌∷◌, ◌++◌, ◌==◌, if◌then◌else◌, Option, none,
  some, u16,
}
use rip_sim.Insts.{
  IMnemo, RMnemo, UMnemo, JMnemo, SMnemo, BMnemo, Body, i_body, r_body, u_body, j_body, s_body,
  b_body, sign_extend,
}
use rip_sim.Registers.Names.{abi}
use rip_sim.Stats.Names.{i_name, r_name, u_name, j_name, s_name, b_name}
use rip_sim.Text.Chars.{Chars, codes, same}
use rip_sim.Text.Numbers.{show_int}
use rip_sim.Asm.Objects.{is_load}

-- `rfind(part) != -1`.
abbrev is_prefix : Chars → Chars → Bool
is_prefix [] s = true
is_prefix (p ∷ ps) [] = false
is_prefix (p ∷ ps) (c ∷ s) = p == c && is_prefix ps s

abbrev contains : Chars → Chars → Bool
contains part [] = is_prefix part []
contains part (c ∷ s) = is_prefix part (c ∷ s) || contains part s

-- `CSRNames` of include/CSR.h, with the number in decimal where a CSR has no name.
abbrev csr_names : List (ℕ × Chars)
csr_names =
    (0x180, codes "satp")
    ∷ (0x300, codes "mstatus")
    ∷ (0x302, codes "medeleg")
    ∷ (0x303, codes "mideleg")
    ∷ (0x304, codes "mie")
    ∷ (0x305, codes "mtvec")
    ∷ (0x341, codes "mepc")
    ∷ (0x342, codes "mcause")
    ∷ (0x343, codes "mtval")
    ∷ (0x3a0, codes "pmpcfg")
    ∷ (0x3b0, codes "pmpaddr")
    ∷ (0xc00, codes "cycle")
    ∷ (0xf14, codes "mhartid")
    ∷ (0xfc0, codes "bptp")
    ∷ (0xfc1, codes "bptn")
    ∷ (0xfc2, codes "bpfp")
    ∷ (0xfc3, codes "bpfn")
    ∷ []

abbrev csr_name : List (ℕ × Chars) → ℕ → Option Chars
csr_name [] ad = none
csr_name ((k, v) ∷ m) ad = if k == ad then some v else csr_name m ad

abbrev or_number : Option Chars → ℕ → Chars
or_number none ad = show_int ad
or_number (some name) ad = name

-- The `CSRAddress` that is looked up is the sign-extended immediate, cut to 16 bits.
unfoldable pub csr_text : ℕ → Chars
csr_text imm = let ad = u16 (sign_extend 12 imm) in or_number (csr_name csr_names ad) ad

abbrev pub space : Chars
space = 32 ∷ []

-- `(offset)reg`.
abbrev pub offset_text : ℕ → ℕ → Chars
offset_text imm reg = codes "(" ++ (show_int (sign_extend 12 imm) ++ (codes ")" ++ abi reg))

unfoldable pub mprint_i : IMnemo → ℕ → ℕ → ℕ → Chars
unfolding i_name csr_text same
mprint_i m rd rs1 imm =
    let name = codes (i_name m) in
    if is_load m
    then name ++ (space ++ (abi rd ++ (space ++ offset_text imm rs1)))
    else if contains (codes "csr") name && not (contains (codes "i") name)
    then name ++ (space ++ (abi rd ++ (space ++ (space ++ (csr_text imm ++ (space ++ abi rs1))))))
    else if contains (codes "csr") name && contains (codes "i") name
    then name
      ++ (space ++ (abi rd ++ (space ++ (space ++ (csr_text imm ++ (space ++ show_int rs1))))))
    else if same name (codes "ecall") || same name (codes "ebreak") || contains (codes "ret") name
    then name
    else name
      ++ (space ++ (abi rd ++ (space ++ (abi rs1 ++ (space ++ show_int (sign_extend 12 imm))))))

abbrev pub mprint_r : RMnemo → ℕ → ℕ → ℕ → Chars
mprint_r m rd rs1 rs2 =
    codes (r_name m) ++ (space ++ (abi rd ++ (space ++ (abi rs1 ++ (space ++ abi rs2)))))

abbrev pub mprint_u : UMnemo → ℕ → ℕ → Chars
mprint_u m rd imm =
    codes (u_name m) ++ (space ++ (abi rd ++ (space ++ show_int (sign_extend 20 imm))))

abbrev pub mprint_j : JMnemo → ℕ → ℕ → Chars
mprint_j m rd imm =
    codes (j_name m) ++ (space ++ (abi rd ++ (space ++ show_int (sign_extend 21 imm))))

abbrev pub mprint_s : SMnemo → ℕ → ℕ → ℕ → Chars
mprint_s m rs1 rs2 imm = codes (s_name m) ++ (space ++ (abi rs2 ++ (space ++ offset_text imm rs1)))

abbrev pub mprint_b : BMnemo → ℕ → ℕ → ℕ → Chars
mprint_b m rs1 rs2 imm =
    codes (b_name m)
    ++ (space ++ (abi rs1 ++ (space ++ (abi rs2 ++ show_int (sign_extend 13 imm)))))

-- The virtual method.
unfoldable pub mprint : Body → Chars
unfolding mprint_i r_name u_name j_name s_name b_name
mprint (i_body m rd rs1 imm) = mprint_i m rd rs1 imm
mprint (r_body m rd rs1 rs2) = mprint_r m rd rs1 rs2
mprint (u_body m rd imm) = mprint_u m rd imm
mprint (j_body m rd imm) = mprint_j m rd imm
mprint (s_body m rs1 rs2 imm) = mprint_s m rs1 rs2 imm
mprint (b_body m rs1 rs2 imm) = mprint_b m rs1 rs2 imm
