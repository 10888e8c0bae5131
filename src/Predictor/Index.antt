-- ===== src/Predictor/Index.antt =====
-- What the predictors of include/RIPSimulator/BranchPredictor.h share: the index of an address and
-- the saturating counter.
use rip_sim.Base.{
  ℕ, ◌-◌, ◌^◌, bit_and, u32, Bool, true, false, Option, none, some, ltb_ℤ, ◌+ℤ◌, if◌then◌else◌, ℤ,
  pos, negsuc, not,
}

-- `value & ((1 << N) - 1)`; `value` is an `unsigned int`, to which an address is cut.
unfoldable pub get_lower_n_bits : ℕ → ℕ → ℕ
get_lower_n_bits value n = bit_and (u32 value) (2 ^ n - 1)

unfoldable pub clamp : ℤ → ℤ → ℤ → ℤ
clamp v lo hi = if ltb_ℤ v lo then lo else if ltb_ℤ hi v then hi else v

-- A counter of the two-bit tables after a branch: one that is new starts at 0.
unfoldable pub learn_counter : Bool → Option ℤ → ℤ
unfolding clamp
learn_counter cond none = clamp (pos 0) (pos 0) (pos 3)
learn_counter true (some v) = clamp (v +ℤ pos 1) (pos 0) (pos 3)
learn_counter false (some v) = clamp (v +ℤ negsuc 0) (pos 0) (pos 3)

-- `count(...) && ... >= 2`
unfoldable pub is_taken : Option ℤ → Bool
is_taken none = false
is_taken (some v) = not (ltb_ℤ v (pos 2))
