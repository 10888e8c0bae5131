-- ===== src/Rip/SingleLoad.antt =====
-- One load alone in the pipeline of lib/RIPSimulator/RIPSimulator.cpp against `exec` of
-- lib/Instructions.cpp.
use rip_sim.Base.{
  ℕ, ◌≡◌, ◌≢◌, refl, sym, ◌∙◌, ok, err, Result, ◌>>=◌, none, true, false, if◌then◌else◌, arith, ◌<◌,
  ltb, ◌==◌, update, u64, ◌+◌, ◌^◌, add32, sext8, sext16, sext64,
}
use rip_sim.Memory.{Memory, read_byte, read_half_word, read_word}
use rip_sim.Insts
use rip_sim.Insts.{Instruction, IMnemo, lb, lh, lw, lbu, lhu, i_body, get_rd}
use rip_sim.Registers
use rip_sim.Registers.{Registers}
use rip_sim.Encoding.Reads.{Reads}
use rip_sim.Isa.{Machine, i_exec, i_step, write_next}
use rip_sim.Isa
use rip_sim.Pipe.{de_stage, ex_stage, ma_stage}
use rip_sim.Rip.State.{Rip, is_csr}
use rip_sim.Rip.Extension.{sign_extend_12}
use rip_sim.Rip.Decode.{decode, is_csr_immediate}
use rip_sim.Rip.Exec
use rip_sim.Rip.Exec.{exec, after_value}
use rip_sim.Rip.Alu.{i_value, csr_value}
use rip_sim.Rip.Control.{load_stall}
use rip_sim.Rip.MemoryAccess
use rip_sim.Rip.MemoryAccess.{memoryaccess, access, is_epilogue}
use rip_sim.Rip.WriteBack.{writeback}
use rip_sim.Rip.Passing.{rd_of, rd_of-lt, wrote}
use rip_sim.Rip.Single.{single, operand_bubbles, machine_of}
use rip_sim.Rip.SingleImmediate.{i_instruction}

abbrev pub IsLoad : IMnemo → Type 0
IsLoad lb = Unit
IsLoad lh = Unit
IsLoad lw = Unit
IsLoad lbu = Unit
IsLoad lhu = Unit
IsLoad _ = ⊥

-- The value that a load takes from the memory.
loaded : IMnemo → Memory → ℕ → Result ℕ
loaded lb m ad = do v ← read_byte m ad; ok (sext8 v)
loaded lh m ad = do v ← read_half_word m ad; ok (sext16 v)
loaded lbu m ad = read_byte m ad
loaded lhu m ad = read_half_word m ad
loaded _ m ad = read_word m ad

-- Both simulators take the same value, or both fault; with it they agree on all registers but x0.
pub record Loads (i : Instruction) (s : Rip) : Type 0 where
  pub value : Result ℕ
  pub after : ℕ → Rip
  pub machine : ℕ → Machine
  pub executes : Isa.exec i.body (machine_of s) ≡ (do v ← value; ok (machine v, none))
  pub returns : single i s ≡ (do v ← value; ok (after v))
  pub regs : (v r : ℕ) → r ≢ 0 → (after v).regs r ≡ (machine v).regs r

then_map :
    {X Y Z : Type 0} (r : Result X) (f : X → Y) (k : Y → Result Z)
    → (do y ← (do x ← r; ok (f x)); k y) ≡ (do x ← r; k (f x))
then_map (ok x) f k = refl
then_map (err e) f k = refl

access_load :
    (m : IMnemo) (rd rs1 imm ad : ℕ) (s : Rip)
    → IsLoad m
    → sext64 ad ≡ ad
    → access (i_body m rd rs1 imm) ad s ≡ (do v ← loaded m s.mem ad; ok (MemoryAccess.latch v s))
unfolding access loaded
access_load lb rd rs1 imm ad s h e =
    sym (then_map (read_byte s.mem ad) sext8 (λ v. ok (MemoryAccess.latch v s)))
access_load lh rd rs1 imm ad s h e =
    sym (then_map (read_half_word s.mem ad) sext16 (λ v. ok (MemoryAccess.latch v s)))
access_load lw rd rs1 imm ad s h e = rw e refl
access_load lbu rd rs1 imm ad s h e = refl
access_load lhu rd rs1 imm ad s h e = refl
access_load _ rd rs1 imm ad s h e = absurd h

no_csr :
    (m : IMnemo) (rd rs1 imm : ℕ)
    → IsLoad m
    → (is_csr (i_body m rd rs1 imm) ≡ false) × (is_csr_immediate (i_body m rd rs1 imm) ≡ false)
no_csr lb rd rs1 imm h = (refl, refl)
no_csr lh rd rs1 imm h = (refl, refl)
no_csr lw rd rs1 imm h = (refl, refl)
no_csr lbu rd rs1 imm h = (refl, refl)
no_csr lhu rd rs1 imm h = (refl, refl)
no_csr _ rd rs1 imm h = absurd h

load_stall_bubble : (i : Instruction) (s : Rip) → s.ps.insts de_stage ≡ none → load_stall i s ≡ ok s
unfolding load_stall
load_stall_bubble i s e = ground arith

-- EX computes the address; nothing waits in DE.
exec_load :
    (m : IMnemo) (rd rs1 imm word : ℕ) (s : Rip)
    → IsLoad m
    → s.ps.insts de_stage ≡ none
    → exec (i_instruction m rd rs1 imm word) s
      ≡ ok (Exec.latch (add32 s.ps.de_rs1_val s.ps.de_imm_val) 0 s, none)
unfolding exec after_value i_value csr_value
exec_load lb rd rs1 imm word s h e =
    rw (load_stall_bubble (i_instruction lb rd rs1 imm word) s e) refl
exec_load lh rd rs1 imm word s h e =
    rw (load_stall_bubble (i_instruction lh rd rs1 imm word) s e) refl
exec_load lw rd rs1 imm word s h e =
    rw (load_stall_bubble (i_instruction lw rd rs1 imm word) s e) refl
exec_load lbu rd rs1 imm word s h e =
    rw (load_stall_bubble (i_instruction lbu rd rs1 imm word) s e) refl
exec_load lhu rd rs1 imm word s h e =
    rw (load_stall_bubble (i_instruction lhu rd rs1 imm word) s e) refl
exec_load _ rd rs1 imm word s h e = absurd h

isa_step :
    (m : IMnemo) (rd rs1 imm a i : ℕ) (s : Machine)
    → IsLoad m
    → sext64 (add32 a i) ≡ add32 a i
    → i_step m rd rs1 imm a i s ≡ (do v ← loaded m s.mem (add32 a i); write_next s rd v)
unfolding i_step loaded
isa_step lb rd rs1 imm a i s h e =
    rw e (sym (then_map (read_byte s.mem (add32 a i)) sext8 (write_next s rd)))
isa_step lh rd rs1 imm a i s h e =
    rw e (sym (then_map (read_half_word s.mem (add32 a i)) sext16 (write_next s rd)))
isa_step lw rd rs1 imm a i s h e = rw e refl
isa_step lbu rd rs1 imm a i s h e = rw e refl
isa_step lhu rd rs1 imm a i s h e = rw e refl
isa_step _ rd rs1 imm a i s h e = absurd h

isa_load :
    (m : IMnemo) (rd rs1 imm : ℕ) (s : Machine)
    → IsLoad m
    → rs1 < 32
    → add32 (s.regs rs1) (Insts.sign_extend 12 imm) < 2 ^ 31
    → i_exec m rd rs1 imm s
      ≡ (do v ← loaded m s.mem (add32 (s.regs rs1) (Insts.sign_extend 12 imm)); write_next s rd v)
unfolding i_exec Registers.read
isa_load m rd rs1 imm s h h1 low =
    let a = s.regs rs1 in
    let t : ltb rs1 32 ≡ true = ground arith in
    rw t (isa_step m rd rs1 imm a (Insts.sign_extend 12 imm) s h (ground arith))

-- The registers that a load leaves.
abbrev with_rd : Registers → ℕ → ℕ → Registers
with_rd r rd v = if rd == 0 then r else update r rd v

write_next_ok :
    (s : Machine) (rd v : ℕ)
    → rd < 32
    → write_next s rd v ≡ ok (record s { regs = with_rd s.regs rd v; pc = u64 (s.pc + 4) }, none)
unfolding write_next Registers.write
write_next_ok s rd v h = let t : ltb rd 32 ≡ true = ground arith in rw t refl

rd_eq :
    (m : IMnemo) (rd rs1 imm word : ℕ)
    → get_rd (i_instruction m rd rs1 imm word) ≡ ok rd
    → rd_of (i_instruction m rd rs1 imm word) ≡ rd
unfolding get_rd
rd_eq m rd rs1 imm word e = ground (arith, e)

-- Two continuations that agree on every value.
bind_eq :
    {X Y : Type 0} (r : Result X) (f g : X → Result Y)
    → ((x : X) → f x ≡ g x)
    → (r >>= f) ≡ (r >>= g)
bind_eq (ok x) f g h = h x
bind_eq (err e) f g h = refl

-- A load whose word carries its fields (rs1 below 32, the immediate of 12 bits), from an address
-- below 2 ^ 31 other than the MMIO address and not in epilogue mode, passes decode, execute,
-- memory access and writeback, with bubbles in DE, EX and MA, and leaves in every register but x0
-- the value that IInstruction::exec of the instruction-level simulator leaves; if one of the two
-- faults, the other ends in the same fault.
pub single_load :
    (m : IMnemo) (rd rs1 imm word : ℕ) (s : Rip)
    → IsLoad m
    → Reads (i_instruction m rd rs1 imm word) (i_body m rd rs1 imm)
    → rs1 < 32
    → imm < 2 ^ 12
    → s.ps.insts de_stage ≡ none
    → s.ps.insts ex_stage ≡ none
    → s.ps.insts ma_stage ≡ none
    → is_epilogue s.mode ≡ false
    → add32 (s.regs rs1) (Insts.sign_extend 12 imm) < 2 ^ 31
    → add32 (s.regs rs1) (Insts.sign_extend 12 imm) ≢ 0x10000000
    → Loads (i_instruction m rd rs1 imm word) s
unfolding decode Isa.exec memoryaccess
single_load m rd rs1 imm word s h reads h1 hi no_de no_ex no_ma mode low mmio =
    let (g, g1, gi) = reads in
    let i = i_instruction m rd rs1 imm word in
    let (n1, n2) = no_csr m rd rs1 imm h in
    let a = s.regs rs1 in
    let ad = add32 a (Insts.sign_extend 12 imm) in
    let x = sign_extend_12 imm hi in
    let decoded : Rip = record s {
      ps = record (s.ps) { de_rs1_val = a; de_imm_val = Insts.sign_extend 12 imm };
    } in
    let executed = Exec.latch ad 0 decoded in
    let e1 = operand_bubbles s rs1 no_ex no_ma h1 in
    let ran = exec_load m rd rs1 imm word decoded h no_de in
    let t3 : (ad == 0x10000000) ≡ false = ground arith in
    let wide : sext64 ad ≡ ad = ground arith in
    let value = loaded m s.mem ad in
    let d = rd_eq m rd rs1 imm word g in
    let small = rd_of-lt i in
    record {
      value = value;
      after = λ v. (wrote i (MemoryAccess.latch v executed)).after;
      machine = λ v. record (machine_of s) { regs = with_rd s.regs rd v; pc = u64 (s.pc + 4) };
      executes =
          isa_load m rd rs1 imm (machine_of s) h h1 low
          ∙ bind_eq value _ _ (λ v. write_next_ok (machine_of s) rd v (omega arith));
      returns =
          rw (n2, g1, e1, n1, gi, x, ran, t3, mode, access_load m rd rs1 imm ad executed h wide)
            (then_map value (λ v. MemoryAccess.latch v executed) (writeback i)
              ∙ bind_eq value _ _ (λ v. (wrote i (MemoryAccess.latch v executed)).returns));
      regs = λ v r ne. (wrote i (MemoryAccess.latch v executed)).regs r ne ∙ rw d (ground arith);
    }
