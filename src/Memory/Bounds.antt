-- ===== src/Memory/Bounds.antt =====
-- Which accesses of lib/Memory.cpp succeed, and what the others end in.
use rip_sim.Base.{ℕ, ◌+◌, ◌≤◌, ◌<◌, ◌≡◌, ◌↔◌, arith, err, out_of_bounds, IsOk}
use rip_sim.Memory.{Memory, read_word, write_word}

-- An access of `n` bytes lies inside the DRAM.
abbrev pub Fits : Memory → ℕ → ℕ → Type 0
Fits m n ad = (m.base ≤ ad) × (ad + n ≤ m.base + m.size)

-- A word can be written exactly where all its four bytes lie in the DRAM; elsewhere the write ends
-- in a fault.
pub write_word-IsOk_iff : (m : Memory) (ad val : ℕ) → IsOk (write_word m ad val) ↔ Fits m 4 ad
unfolding write_word
write_word-IsOk_iff m ad val = (ground arith, ground arith)

pub read_word-IsOk_iff : (m : Memory) (ad : ℕ) → IsOk (read_word m ad) ↔ Fits m 4 ad
unfolding read_word
read_word-IsOk_iff m ad = (ground arith, ground arith)

-- The asserts let a word read through that starts at most the size of the DRAM above its base: if
-- its last byte does not fit, the vector is indexed out of bounds.
pub read_word_past_end :
    (m : Memory) (ad : ℕ)
    → m.base ≤ ad
    → ad ≤ m.base + m.size
    → m.base + m.size < ad + 4
    → read_word m ad ≡ err out_of_bounds
unfolding read_word
read_word_past_end m ad lo hi past = ground arith
