-- ===== src/Predictor/Gshare.antt =====
-- `GshareBranchPredictor` of include/RIPSimulator/BranchPredictor.h.
use rip_sim.Base.{
  ℕ, ◌+◌, ◌%◌, ◌^◌, bit_xor, u32, ◌<<<◌, ◌>>>◌, Bool, to_int, Option, none, some, update, ℤ,
}
use rip_sim.Predictor.Index.{get_lower_n_bits, learn_counter, is_taken}

pub record Gshare : Type 0 where
  pub branch_history_table : ℕ → Option ℤ
  pub branch_history : ℕ

abbrev pub init_gshare : Gshare
init_gshare = record { branch_history_table = λ _. none; branch_history = 0 }

abbrev pub bht_index_width : ℕ
bht_index_width = 10

unfoldable pub get_bht_index : ℕ → Gshare → ℕ
get_bht_index pc p = bit_xor (get_lower_n_bits (pc >>> 2) bht_index_width) p.branch_history

unfoldable pub learn : Bool → ℕ → Gshare → Gshare
unfolding get_bht_index
learn cond pc p =
    let i = get_bht_index pc p in
    record {
      branch_history_table =
          update p.branch_history_table i (some (learn_counter cond (p.branch_history_table i)));
      branch_history = u32 (u32 (p.branch_history <<< 1) + to_int cond) % 2 ^ bht_index_width;
    }

unfoldable pub predict : ℕ → Gshare → Bool
unfolding get_bht_index
predict pc p = is_taken (p.branch_history_table (get_bht_index pc p))
