-- ===== src/Simulator/Input.antt =====
-- The reading half of the loop of the constructor: four bytes at a time from a binary file.
use rip_sim.Base.{ℕ, ◌+◌, ◌*◌, ◌^◌, List, [], ◌∷◌}

-- `is.read(Buff, 4)`, the bytes taken as an `unsigned`, lowest byte first; a rest of less than four
-- bytes ends the loop.
unfoldable pub file_words : List ℕ → List ℕ
file_words (a ∷ b ∷ c ∷ d ∷ bs) = (a + b * 2 ^ 8 + c * 2 ^ 16 + d * 2 ^ 24) ∷ file_words bs
file_words _ = []
