-- ===== src/Base/Table.antt =====
-- Arrays and `std::map`s that are only read and written by key, as functions.
use Prim.Native.Nat.{ℕ}
use rip_sim.Base.Logic.{◌==◌, if◌then◌else◌}

abbrev pub update {ℓ} : {A : Type ℓ} → (ℕ → A) → ℕ → A → ℕ → A
update f k v j = if j == k then v else f j
