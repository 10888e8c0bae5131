-- ===== src/Print/Assembled.antt =====
-- What `mprint` prints of an instruction, the assembler reads.
use rip_sim.Base.{ℕ, ◌<◌, ◌%◌, ◌^◌, List, [], ◌∷◌, ◌≡◌, ◌≢◌, ap, ◌∙◌, arith, ok}
use mathlib.Core.Path.{subst}
use rip_sim.Insts.{
  RMnemo, UMnemo, JMnemo, add, lui, auipc, jal, sign_extend, Instruction, r_body, new_r, u_body,
  new_u, j_body, new_j,
}
use rip_sim.Registers.Names.{abi, abi-Names, Names}
use rip_sim.Stats.Names.{r_name, u_name, j_name}
use rip_sim.Text.Chars.{Chars, codes, All}
use rip_sim.Text.Split.{Plain}
use rip_sim.Text.Numbers.{show_int, stoi-show_int}
use rip_sim.Asm.Operands.{find_reg}
use rip_sim.Asm.Emitter.{assemble}
use rip_sim.Print.Assembly.{mprint}
use rip_sim.Print.Lines.{Line, Line-append, Line-reg, Line-int, Line-word}

-- An instruction that is printed as a line which assembles to the second one.
pub record Reassembles (i built : Instruction) : Type 0 where
  pub mnemo : Chars
  pub operands : List Chars
  pub line : Line (mprint i.body) (mnemo ∷ operands)
  pub assembles : assemble (mnemo ∷ operands) ≡ ok built

pub Line-eq : {s t : Chars} {ts : List Chars} → s ≡ t → Line s ts → Line t ts
Line-eq {ts} e = subst (λ u. Line u ts) e

pub r_name-Plain : (m : RMnemo) → All Plain (codes (r_name m)) × (codes (r_name m) ≢ [])
unfolding r_name
r_name-Plain add = (omega arith, cc)
r_name-Plain _ = (omega arith, cc)

r_name-Line : (m : RMnemo) → Line (codes (r_name m)) (codes (r_name m) ∷ [])
r_name-Line m = Line-word (codes (r_name m)) (r_name-Plain m).1 (r_name-Plain m).0

assemble_r :
    (m : RMnemo) (d a b : ℕ) (nd : Names d) (na : Names a) (nb : Names b)
    → assemble (codes (r_name m) ∷ nd.token ∷ na.token ∷ nb.token ∷ []) ≡ ok (new_r m d a b)
unfolding assemble find_reg r_name
assemble_r add d a b nd na nb = rw (nd.named, na.named, nb.named)
assemble_r _ d a b nd na nb = rw (nd.named, na.named, nb.named)

mprint_r-Line :
    (m : RMnemo) (d a b : ℕ) (nd : Names d) (na : Names a) (nb : Names b)
    → Line (mprint (r_body m d a b)) (codes (r_name m) ∷ nd.token ∷ na.token ∷ nb.token ∷ [])
unfolding mprint
mprint_r-Line m d a b nd na nb = Line-append (codes (r_name m)) _ (r_name-Line m) (
    Line-append (abi d) _ (Line-reg d nd)
      (Line-append (abi a) (abi b) (Line-reg a na) (Line-reg b nb)))

pub body-new_r :
    (m : RMnemo) (d a b : ℕ) → d < 32 → a < 32 → b < 32 → r_body m d a b ≡ (new_r m d a b).body
unfolding new_r
body-new_r m d a b hd ha hb = ground arith

pub new_r-Reassembles :
    (m : RMnemo) (d a b : ℕ)
    → d < 32
    → a < 32
    → b < 32
    → Reassembles (new_r m d a b) (new_r m d a b)
new_r-Reassembles m d a b hd ha hb =
    let nd = abi-Names d hd in
    let na = abi-Names a ha in
    let nb = abi-Names b hb in
    record {
      mnemo = codes (r_name m);
      operands = nd.token ∷ na.token ∷ nb.token ∷ [];
      line = Line-eq (ap mprint (body-new_r m d a b hd ha hb)) (mprint_r-Line m d a b nd na nb);
      assembles = assemble_r m d a b nd na nb;
    }

pub u_name-Plain : (m : UMnemo) → All Plain (codes (u_name m)) × (codes (u_name m) ≢ [])
unfolding u_name
u_name-Plain lui = (omega arith, cc)
u_name-Plain auipc = (omega arith, cc)

assemble_u :
    (m : UMnemo) (d v : ℕ) (nd : Names d)
    → v < 2 ^ 32
    → assemble (codes (u_name m) ∷ nd.token ∷ show_int v ∷ []) ≡ ok (new_u m d (v % 2 ^ 20))
unfolding assemble find_reg u_name
assemble_u lui d v nd h = rw (nd.named, stoi-show_int v h)
assemble_u auipc d v nd h = rw (nd.named, stoi-show_int v h)

mprint_u-Line :
    (m : UMnemo) (d imm : ℕ) (nd : Names d)
    → Line
        (mprint (u_body m d imm))
        (codes (u_name m) ∷ nd.token ∷ show_int (sign_extend 20 imm) ∷ [])
unfolding mprint
mprint_u-Line m d imm nd =
    Line-append (codes (u_name m)) _
      (Line-word (codes (u_name m)) (u_name-Plain m).1 (u_name-Plain m).0)
      (Line-append (abi d) _ (Line-reg d nd) (Line-int (sign_extend 20 imm)))

pub body-new_u :
    (m : UMnemo) (d imm : ℕ) → d < 32 → imm < 2 ^ 20 → u_body m d imm ≡ (new_u m d imm).body
unfolding new_u
body-new_u m d imm hd hi = ground arith

pub new_u-Reassembles :
    (m : UMnemo) (d imm : ℕ) → d < 32 → imm < 2 ^ 20 → Reassembles (new_u m d imm) (new_u m d imm)
new_u-Reassembles m d imm hd hi =
    let nd = abi-Names d hd in
    record {
      mnemo = codes (u_name m);
      operands = nd.token ∷ show_int (sign_extend 20 imm) ∷ [];
      line = Line-eq (ap mprint (body-new_u m d imm hd hi)) (mprint_u-Line m d imm nd);
      assembles =
          assemble_u m d (sign_extend 20 imm) nd (ground arith)
          ∙ ap (λ k. ok (new_u m d k)) (ground arith);
    }

pub j_name-Plain : (m : JMnemo) → All Plain (codes (j_name m)) × (codes (j_name m) ≢ [])
unfolding j_name
j_name-Plain jal = (omega arith, cc)

assemble_j :
    (m : JMnemo) (d v : ℕ) (nd : Names d)
    → v < 2 ^ 32
    → assemble (codes (j_name m) ∷ nd.token ∷ show_int v ∷ []) ≡ ok (new_j m d (v % 2 ^ 21))
unfolding assemble find_reg j_name
assemble_j jal d v nd h = rw (nd.named, stoi-show_int v h)

mprint_j-Line :
    (m : JMnemo) (d imm : ℕ) (nd : Names d)
    → Line
        (mprint (j_body m d imm))
        (codes (j_name m) ∷ nd.token ∷ show_int (sign_extend 21 imm) ∷ [])
unfolding mprint
mprint_j-Line m d imm nd =
    Line-append (codes (j_name m)) _
      (Line-word (codes (j_name m)) (j_name-Plain m).1 (j_name-Plain m).0)
      (Line-append (abi d) _ (Line-reg d nd) (Line-int (sign_extend 21 imm)))

pub body-new_j :
    (m : JMnemo) (d imm : ℕ) → d < 32 → imm < 2 ^ 21 → j_body m d imm ≡ (new_j m d imm).body
unfolding new_j
body-new_j m d imm hd hi = ground arith

pub new_j-Reassembles :
    (m : JMnemo) (d imm : ℕ) → d < 32 → imm < 2 ^ 21 → Reassembles (new_j m d imm) (new_j m d imm)
new_j-Reassembles m d imm hd hi =
    let nd = abi-Names d hd in
    record {
      mnemo = codes (j_name m);
      operands = nd.token ∷ show_int (sign_extend 21 imm) ∷ [];
      line = Line-eq (ap mprint (body-new_j m d imm hd hi)) (mprint_j-Line m d imm nd);
      assembles =
          assemble_j m d (sign_extend 21 imm) nd (ground arith)
          ∙ ap (λ k. ok (new_j m d k)) (ground arith);
    }
