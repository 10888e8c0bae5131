-- ===== src/Memory.antt =====
-- include/Memory.h and lib/Memory.cpp: the DRAM of both simulators.
pub mod Bounds
pub mod Words
pub mod Cells
use rip_sim.Base.{
  ℕ, ◌+◌, ◌-◌, ◌^◌, ◌<◌, bit_and, not, u8, u16, u32, ◌<<<◌, ◌>>>◌, ltb, Result, ok, Fault,
  assertion, out_of_bounds, guard, ◌>>=◌, ◌>>◌, update,
}

-- `DRAM` is a vector of `size` bytes; `cells` is only read and written below `size`.
pub record Memory : Type 0 where
  pub cells : ℕ → ℕ
  pub size : ℕ
  pub base : ℕ

abbrev pub init : ℕ → ℕ → Memory
init size base = record { cells = λ _. 0; size = size; base = base }

-- The two asserts at the head of every method, and the offset into the vector.
pub offset : Memory → ℕ → Result ℕ
offset m ad = do
  guard (not (ltb ad m.base)) assertion
  guard (not (ltb m.size (ad - m.base))) assertion
  ok (ad - m.base)

-- `DRAM[i]`, read and written.
pub load : Memory → ℕ → Result ℕ
load m i = do guard (ltb i m.size) out_of_bounds; ok (m.cells i)

pub store : Memory → ℕ → ℕ → Result Memory
store m i v = do guard (ltb i m.size) out_of_bounds; ok (record m { cells = update m.cells i v })

unfoldable pub write_byte : Memory → ℕ → ℕ → Result Memory
unfolding offset store
write_byte m ad val = do i ← offset m ad; store m i (bit_and val 0xff)

unfoldable pub read_byte : Memory → ℕ → Result ℕ
unfolding offset load
read_byte m ad = do i ← offset m ad; load m i

unfoldable pub write_half_word : Memory → ℕ → ℕ → Result Memory
unfolding offset store
write_half_word m ad val = do
  i ← offset m ad
  m ← store m i (bit_and val 0xff)
  store m (i + 1) (bit_and (val >>> 8) 0xff)

unfoldable pub read_half_word : Memory → ℕ → Result ℕ
unfolding offset load
read_half_word m ad = do i ← offset m ad; a ← load m i; b ← load m (i + 1); ok (u16 (a + b <<< 8))

unfoldable pub write_word : Memory → ℕ → ℕ → Result Memory
unfolding offset store
write_word m ad val = do
  i ← offset m ad
  m ← store m i (bit_and val 0xff)
  m ← store m (i + 1) (bit_and (val >>> 8) 0xff)
  m ← store m (i + 2) (bit_and (val >>> 16) 0xff)
  store m (i + 3) (bit_and (val >>> 24) 0xff)

unfoldable pub read_word : Memory → ℕ → Result ℕ
unfolding offset load
read_word m ad = do
  i ← offset m ad
  a ← load m i
  b ← load m (i + 1)
  c ← load m (i + 2)
  d ← load m (i + 3)
  ok (u32 (a + b <<< 8 + c <<< 16 + d <<< 24))
