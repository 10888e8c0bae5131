-- ===== src/Predictor/Dispatch.antt =====
-- `class BranchPredictor` of include/RIPSimulator/BranchPredictor.h.
use rip_sim.Base.{ℕ, add32, Bool, false, xor, if◌then◌else◌, Option, none, some}
use rip_sim.Predictor.OneBit.{OneBit}
use rip_sim.Predictor.TwoBit.{TwoBit}
use rip_sim.Predictor.Gshare.{Gshare}
use rip_sim.Predictor.Perceptron.{Perceptron}
use rip_sim.Predictor.OneBit
use rip_sim.Predictor.TwoBit
use rip_sim.Predictor.Gshare
use rip_sim.Predictor.Perceptron

-- The subclasses.
pub data Kind : Type 0 where
  one_bit : OneBit → Kind
  two_bit : TwoBit → Kind
  gshare : Gshare → Kind
  perceptron : Perceptron → Kind

pub record BranchPredictor : Type 0 where
  pub hit_num : ℕ
  pub miss_num : ℕ
  pub prev_pred : Bool
  pub branch_pred_pc : Option ℕ
  pub kind : Kind

abbrev pub init : Kind → BranchPredictor
init k = record { hit_num = 0; miss_num = 0; prev_pred = false; branch_pred_pc = none; kind = k }

-- `Learn`
unfoldable pub learn_kind : Bool → ℕ → Kind → Kind
learn_kind cond pc (one_bit p) = one_bit (OneBit.learn cond pc p)
learn_kind cond pc (two_bit p) = two_bit (TwoBit.learn cond pc p)
learn_kind cond pc (gshare p) = gshare (Gshare.learn cond pc p)
learn_kind cond pc (perceptron p) = perceptron (Perceptron.learn cond pc p)

abbrev pub learn : Bool → ℕ → BranchPredictor → BranchPredictor
learn cond pc b = record b { kind = learn_kind cond pc b.kind }

-- `Predict`, which changes the perceptron's `y`.
unfoldable pub predict_kind : ℕ → Kind → Bool × Kind
predict_kind pc (one_bit p) = (OneBit.predict pc p, one_bit p)
predict_kind pc (two_bit p) = (TwoBit.predict pc p, two_bit p)
predict_kind pc (gshare p) = (Gshare.predict pc p, gshare p)
predict_kind pc (perceptron p) = let (r, q) = Perceptron.predict pc p in (r, perceptron q)

abbrev pub set_branch_pred_pc : ℕ → BranchPredictor → BranchPredictor
set_branch_pred_pc pc b = record b { branch_pred_pc = some pc }

abbrev pub take_branch_pred_pc : BranchPredictor → Option ℕ × BranchPredictor
take_branch_pred_pc b = (b.branch_pred_pc, record b { branch_pred_pc = none })

abbrev pub set_prev_pred : Bool → BranchPredictor → BranchPredictor
set_prev_pred pred b = record b { prev_pred = pred }

unfoldable pub stats_update : Bool → Bool → BranchPredictor → BranchPredictor
stats_update cond pred b =
    if xor cond pred
    then record b { miss_num = add32 b.miss_num 1 }
    else record b { hit_num = add32 b.hit_num 1 }
