-- ===== src/Memory/Words.antt =====
-- What lib/Memory.cpp reads back after it has written: little-endian words and halfwords.
use rip_sim.Base.{ℕ, ◌+◌, ◌-◌, ◌^◌, ◌≤◌, ◌<◌, ◌≡◌, ◌⊎◌, bit_and_ones, arith, ok, ◌>>=◌, ◌>>>◌, ◌*◌}
use rip_sim.Memory.{
  Memory, read_byte, read_word, read_half_word, write_byte, write_word, write_half_word,
}
use rip_sim.Memory.Bounds.{Fits}

module _ (m : Memory) (ad val : ℕ) where
  -- Where its four bytes lie in the DRAM, a 32-bit word can be written and is read back.
  pub read_word-write_word :
      Fits m 4 ad → val < 2 ^ 32 → (do m' ← write_word m ad val; read_word m' ad) ≡ ok val
  unfolding read_word write_word
  read_word-write_word fits h = ground (
    arith,
    bit_and_ones 8 val,
    bit_and_ones 8 (val >>> 8),
    bit_and_ones 8 (val >>> 16),
    bit_and_ones 8 (val >>> 24),
  )

  -- Where its two bytes lie in the DRAM, a 16-bit halfword can be written and is read back.
  pub read_half_word-write_half_word :
      Fits m 2 ad → val < 2 ^ 16 → (do m' ← write_half_word m ad val; read_half_word m' ad) ≡ ok val
  unfolding read_half_word write_half_word
  read_half_word-write_half_word fits h =
      ground (arith, bit_and_ones 8 val, bit_and_ones 8 (val >>> 8))

  pub read_byte-write_byte :
      Fits m 1 ad → val < 2 ^ 8 → (do m' ← write_byte m ad val; read_byte m' ad) ≡ ok val
  unfolding read_byte write_byte
  read_byte-write_byte fits h = ground (arith, bit_and_ones 8 val)

  -- A word written inside the DRAM leaves what a byte read gives at every address outside its four
  -- bytes.
  pub read_byte-write_word_outside :
      (b : ℕ)
      → Fits m 4 ad
      → (b < ad) ⊎ (ad + 4 ≤ b)
      → (do m' ← write_word m ad val; read_byte m' b) ≡ read_byte m b
  unfolding read_byte write_word
  read_byte-write_word_outside b fits out = ground arith

-- If every cell holds a byte, a word inside the DRAM is composed of its four bytes, the lowest
-- address in the lowest bits.
pub read_word-bytes :
    (m : Memory) (ad : ℕ)
    → ((j : ℕ) → m.cells j < 256)
    → Fits m 4 ad
    → read_word m ad ≡ (do
      a ← read_byte m ad
      b ← read_byte m (ad + 1)
      c ← read_byte m (ad + 2)
      d ← read_byte m (ad + 3)
      ok (a + 256 * b + 65536 * c + 16777216 * d))
unfolding read_word read_byte
read_word-bytes m ad bytes fits = ground (
  arith,
  bytes (ad - m.base),
  bytes (ad - m.base + 1),
  bytes (ad - m.base + 2),
  bytes (ad - m.base + 3),
)
