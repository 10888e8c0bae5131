-- ===== src/Stats.antt =====
-- include/Statistics.h: the counters of executed instructions. The printing is left out.
pub mod Names
use Prim.Native.String.{String}
use text.Mathlib.Text.{◌==◌ as str_eq}
use rip_sim.Base.{ℕ, ◌+◌, add32, update, if◌then◌else◌, Option, none, some, Bool, true, false}
use rip_sim.Insts.{Body, b_body}
use Names.{mnemo}

-- A key that a map does not hold is `none`.
pub record Statistics : Type 0 where
  pub b_dist : ℕ
  pub b_dists : ℕ → Option ℕ
  pub inst_counts : String → Option ℕ

abbrev pub init : Statistics
init = record { b_dist = 0; b_dists = λ _. none; inst_counts = λ _. none }

-- `IT->second++`, or `insert({key, 1})`.
abbrev bump : Option ℕ → Option ℕ
bump none = some 1
bump (some n) = some (add32 n 1)

unfoldable pub increment_b_dist : Statistics → Statistics
increment_b_dist s = record s { b_dist = add32 s.b_dist 1 }

unfoldable pub add_inst : String → Statistics → Statistics
add_inst m s = record s {
  inst_counts = λ k. if str_eq k m then bump (s.inst_counts m) else s.inst_counts k;
}

unfoldable pub add_b_dist_and_reset : Statistics → Statistics
add_b_dist_and_reset s = record s {
  b_dist = 0;
  b_dists = update s.b_dists s.b_dist (bump (s.b_dists s.b_dist));
}

abbrev is_branch : Body → Bool
is_branch (b_body m rs1 rs2 imm) = true
is_branch _ = false

-- The lines that both simulators run after an instruction.
unfoldable pub count_inst : Body → Statistics → Statistics
unfolding add_inst add_b_dist_and_reset increment_b_dist mnemo
count_inst b s =
    let s' = add_inst (mnemo b) s in
    if is_branch b then add_b_dist_and_reset s' else increment_b_dist s'
