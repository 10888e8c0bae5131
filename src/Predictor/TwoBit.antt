-- ===== src/Predictor/TwoBit.antt =====
-- `TwoBitBranchPredictor` of include/RIPSimulator/BranchPredictor.h.
use rip_sim.Base.{ℕ, ◌>>>◌, Bool, Option, none, some, update, ℤ}
use rip_sim.Predictor.Index.{get_lower_n_bits, learn_counter, is_taken}

pub record TwoBit : Type 0 where
  pub branch_history_table : ℕ → Option ℤ

abbrev pub init_two_bit : TwoBit
init_two_bit = record { branch_history_table = λ _. none }

abbrev pub bht_index_width : ℕ
bht_index_width = 10

unfoldable pub learn : Bool → ℕ → TwoBit → TwoBit
learn cond pc p =
    let i = get_lower_n_bits (pc >>> 2) bht_index_width in
    record p {
      branch_history_table =
          update p.branch_history_table i (some (learn_counter cond (p.branch_history_table i)));
    }

unfoldable pub predict : ℕ → TwoBit → Bool
predict pc p = is_taken (p.branch_history_table (get_lower_n_bits (pc >>> 2) bht_index_width))
