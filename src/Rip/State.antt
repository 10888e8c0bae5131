-- ===== src/Rip/State.antt =====
-- `class RIPSimulator`: the state, and what the stages share.
use rip_sim.Base.{
  ℕ, ◌-◌, ◌^◌, bit_and, bit_or, ◌==◌, if◌then◌else◌, Bool, true, false, ◌>>>◌, Option, none, some,
  List, Result, ok, ◌>>=◌,
}
use rip_sim.Memory.{Memory}
use rip_sim.Registers.{Registers}
use rip_sim.Csr.{Csrs, ModeKind}
use rip_sim.Insts.{
  Instruction, Body, i_body, get_i_imm, csrrw, csrrs, csrrc, csrrwi, csrrsi, csrrci,
}
use rip_sim.Pipe.{PipelineStates}
use rip_sim.Predictor.Dispatch.{BranchPredictor}
use rip_sim.Stats.{Statistics}

-- `console` holds the characters that MMIO accesses print, the last one first.
pub record Rip : Type 0 where
  pub mem : Memory
  pub pc : ℕ
  pub csrs : Csrs
  pub mode : ModeKind
  pub num_stages : ℕ
  pub ps : PipelineStates
  pub regs : Registers
  pub bp : Option BranchPredictor
  pub stats : Option Statistics
  pub console : List ℕ

-- `signExtend(Imm, BitWidth)` at the head of the file.
abbrev pub sign_extend : ℕ → ℕ → ℕ
sign_extend imm bit_width =
    if bit_and (imm >>> (bit_width - 1)) 1 == 1 then bit_or (2 ^ 32 - 2 ^ bit_width) imm else imm

-- `CSR_INSTs.count(Mnemo)`
abbrev pub is_csr : Body → Bool
is_csr (i_body csrrw rd rs1 imm) = true
is_csr (i_body csrrs rd rs1 imm) = true
is_csr (i_body csrrc rd rs1 imm) = true
is_csr (i_body csrrwi rd rs1 imm) = true
is_csr (i_body csrrsi rd rs1 imm) = true
is_csr (i_body csrrci rd rs1 imm) = true
is_csr _ = false

-- `PS[...] && CSR_INSTs.count(PS[...]->getMnemo()) && (ca == PS[...]->getIImm())`
unfoldable pub writes_csr : Option Instruction → ℕ → Result Bool
writes_csr none ca = ok false
writes_csr (some i) ca = elim (is_csr i.body) [
  | true ↦ (do imm ← get_i_imm i; ok (ca == imm))
  | false ↦ ok false
]
