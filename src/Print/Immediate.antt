-- ===== src/Print/Immediate.antt =====
-- The same for the I-type instructions that are printed with rs1 and the immediate.
use rip_sim.Base.{
  ℕ, ◌<◌, ◌%◌, ◌^◌, [], ◌∷◌, ◌++◌, ◌≡◌, ◌≢◌, refl, ap, ◌∙◌, bit_or, ◌<<<◌, arith, ok,
}
use rip_sim.Insts.{
  IMnemo, addi, sign_extend, i_body, new_i, lb, lh, lw, lbu, lhu, srai, csrrw, csrrs, csrrc, csrrwi,
  csrrsi, csrrci, ecall, ebreak, uret, sret, mret,
}
use rip_sim.Registers.Names.{abi, abi-Names, Names}
use rip_sim.Stats.Names.{i_name}
use rip_sim.Text.Chars.{codes, same, All}
use rip_sim.Text.Split.{Plain}
use rip_sim.Text.Numbers.{show_int, stoi-show_int}
use rip_sim.Asm.Operands.{find_reg}
use rip_sim.Asm.Emitter.{assemble}
use rip_sim.Print.Assembly.{mprint, mprint_i}
use rip_sim.Print.Lines.{Line, Line-append, Line-reg, Line-int, Line-word}
use rip_sim.Print.Assembled.{Reassembles, Line-eq}

-- The I-type instructions that are printed with rs1 and the immediate: all but loads, CSR
-- instructions and those of the system.
abbrev pub HasImmediate : IMnemo → Type 0
HasImmediate lb = ⊥
HasImmediate lh = ⊥
HasImmediate lw = ⊥
HasImmediate lbu = ⊥
HasImmediate lhu = ⊥
HasImmediate csrrw = ⊥
HasImmediate csrrs = ⊥
HasImmediate csrrc = ⊥
HasImmediate csrrwi = ⊥
HasImmediate csrrsi = ⊥
HasImmediate csrrci = ⊥
HasImmediate ecall = ⊥
HasImmediate ebreak = ⊥
HasImmediate uret = ⊥
HasImmediate sret = ⊥
HasImmediate mret = ⊥
HasImmediate _ = Unit

i_name-Plain : (m : IMnemo) → All Plain (codes (i_name m)) × (codes (i_name m) ≢ [])
unfolding i_name
i_name-Plain addi = (omega arith, cc)
i_name-Plain _ = (omega arith, cc)

-- The immediate that the assembler builds the object with: it sets bit 10 for srai.
abbrev pub kept : IMnemo → ℕ → ℕ
kept srai n = bit_or n (1 <<< 10)
kept _ n = n

assemble_i :
    (m : IMnemo) (d a v : ℕ) (nd : Names d) (na : Names a)
    → v < 2 ^ 32
    → assemble (codes (i_name m) ∷ nd.token ∷ na.token ∷ show_int v ∷ [])
      ≡ ok (new_i m d a (kept m (v % 2 ^ 12)))
unfolding assemble find_reg i_name
assemble_i addi d a v nd na h = rw (nd.named, na.named, stoi-show_int v h)
assemble_i _ d a v nd na h = rw (nd.named, na.named, stoi-show_int v h)

mprint-HasImmediate :
    (m : IMnemo) (d a imm : ℕ)
    → HasImmediate m
    → codes (i_name m) ++ (32 ∷ abi d ++ (32 ∷ abi a ++ (32 ∷ show_int (sign_extend 12 imm))))
      ≡ mprint (i_body m d a imm)
unfolding mprint mprint_i i_name same
mprint-HasImmediate lb d a imm h = absurd h
mprint-HasImmediate lh d a imm h = absurd h
mprint-HasImmediate lw d a imm h = absurd h
mprint-HasImmediate lbu d a imm h = absurd h
mprint-HasImmediate lhu d a imm h = absurd h
mprint-HasImmediate csrrw d a imm h = absurd h
mprint-HasImmediate csrrs d a imm h = absurd h
mprint-HasImmediate csrrc d a imm h = absurd h
mprint-HasImmediate csrrwi d a imm h = absurd h
mprint-HasImmediate csrrsi d a imm h = absurd h
mprint-HasImmediate csrrci d a imm h = absurd h
mprint-HasImmediate ecall d a imm h = absurd h
mprint-HasImmediate ebreak d a imm h = absurd h
mprint-HasImmediate uret d a imm h = absurd h
mprint-HasImmediate sret d a imm h = absurd h
mprint-HasImmediate mret d a imm h = absurd h
mprint-HasImmediate _ d a imm h = refl

mprint_i-Line :
    (m : IMnemo) (d a imm : ℕ) (nd : Names d) (na : Names a)
    → HasImmediate m
    → Line
        (mprint (i_body m d a imm))
        (codes (i_name m) ∷ nd.token ∷ na.token ∷ show_int (sign_extend 12 imm) ∷ [])
mprint_i-Line m d a imm nd na h = Line-eq (mprint-HasImmediate m d a imm h) (
    Line-append (codes (i_name m)) _
      (Line-word (codes (i_name m)) (i_name-Plain m).1 (i_name-Plain m).0)
      (Line-append (abi d) _ (Line-reg d nd)
        (Line-append (abi a) _ (Line-reg a na) (Line-int (sign_extend 12 imm)))))

pub body-new_i :
    (m : IMnemo) (d a imm : ℕ)
    → d < 32
    → a < 32
    → imm < 2 ^ 12
    → i_body m d a imm ≡ (new_i m d a imm).body
unfolding new_i
body-new_i m d a imm hd ha hi = ground arith

pub new_i-Reassembles :
    (m : IMnemo) (d a imm : ℕ)
    → d < 32
    → a < 32
    → imm < 2 ^ 12
    → HasImmediate m
    → Reassembles (new_i m d a imm) (new_i m d a (kept m imm))
new_i-Reassembles m d a imm hd ha hi h =
    let nd = abi-Names d hd in
    let na = abi-Names a ha in
    let e : sign_extend 12 imm % 2 ^ 12 ≡ imm = ground arith in
    record {
      mnemo = codes (i_name m);
      operands = nd.token ∷ na.token ∷ show_int (sign_extend 12 imm) ∷ [];
      line = Line-eq (ap mprint (body-new_i m d a imm hd ha hi)) (mprint_i-Line m d a imm nd na h);
      assembles =
          assemble_i m d a (sign_extend 12 imm) nd na (ground arith)
          ∙ ap (λ k. ok (new_i m d a k)) (ap (kept m) e);
    }
