-- ===== src/Rip/Agree.antt =====
-- The two simulators compute the same: `RIPSimulator::exec` against lib/Instructions.cpp.
use rip_sim.Base.{ℕ, ◌≡◌, refl}
use rip_sim.Insts.{RMnemo, add}
use rip_sim.Isa.{r_result}
use rip_sim.Rip.Alu.{r_value}

-- For all eighteen R-type mnemonics and all operands, the pipeline and the instruction-level
-- simulator compute the same result.
pub r_value-r_result : (m : RMnemo) (a b : ℕ) → r_value m a b ≡ r_result m a b
unfolding r_value r_result
r_value-r_result add a b = refl
r_value-r_result _ a b = refl
