-- ===== src/Predictor/OneBit.antt =====
-- `OneBitBranchPredictor` of include/RIPSimulator/BranchPredictor.h.
use rip_sim.Base.{ℕ, ◌>>>◌, Bool, false, Option, none, some, update}
use rip_sim.Predictor.Index.{get_lower_n_bits}

pub record OneBit : Type 0 where
  pub branch_history_table : ℕ → Option Bool

abbrev pub init_one_bit : OneBit
init_one_bit = record { branch_history_table = λ _. none }

abbrev pub bht_index_width : ℕ
bht_index_width = 5

unfoldable pub learn : Bool → ℕ → OneBit → OneBit
learn cond pc p = record p {
  branch_history_table =
      update p.branch_history_table (get_lower_n_bits (pc >>> 2) bht_index_width) (some cond);
}

unfoldable pub predict : ℕ → OneBit → Bool
predict pc p = elim (p.branch_history_table (get_lower_n_bits (pc >>> 2) bht_index_width)) [
  | some b ↦ b
  | none ↦ false
]
