-- ===== src/Registers/Laws.antt =====
-- The register file of include/Registers.h: x0 reads as zero, and a write is what is read back.
use rip_sim.Base.{ℕ, ◌<◌, ◌≡◌, arith, ok, ◌==◌, if◌then◌else◌, ◌>>=◌, ◌&&◌, not, ◌^◌}
use rip_sim.Registers.{Registers, read, write}

-- x0 is zero and every register is a 32-bit pattern.
pub record IsValid (r : Registers) : Type 0 where
  pub zero_reg : r 0 ≡ 0
  pub fits : (i : ℕ) → r i < 2 ^ 32

-- For indices below 32, a write to a register other than x0 is read back there, a write to x0 is
-- lost, and every other register keeps its value.
pub read-write :
    (r : Registers) (id val j : ℕ)
    → id < 32
    → j < 32
    → (do r' ← write r id val; read r' j) ≡ ok (if (id == j) && not (id == 0) then val else r j)
unfolding read write
read-write r id val j hi hj = ground arith

pub write-IsValid :
    (r s : Registers) (id val : ℕ) → IsValid r → val < 2 ^ 32 → write r id val ≡ ok s → IsValid s
unfolding write
write-IsValid r s id val v h e = record {
  zero_reg = ground (arith, v.zero_reg);
  fits = λ i. ground (arith, v.fits i);
}
