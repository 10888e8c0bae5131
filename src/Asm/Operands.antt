-- ===== src/Asm/Operands.antt =====
-- `findReg` and `parseOffsetReg` of include/Instructions.h, and `std::bitset<5>` of a string.
use rip_sim.Base.{
  ℕ, zero, suc, ◌+◌, ◌*◌, ◌-◌, Bool, true, ◌&&◌, ◌||◌, List, [], ◌∷◌, ◌==◌, if◌then◌else◌, Option,
  none, some, Result, ok, err, assertion, out_of_bounds, thrown, ◌>>=◌,
}
use rip_sim.Registers.Names.{reg_of_name}
use rip_sim.Text.Chars.{Chars, is_digit, is_alnum}
use rip_sim.Text.Numbers.{stoi}

-- `Toks[i]`.
unfoldable pub tok : List Chars → ℕ → Result Chars
tok [] i = err out_of_bounds
tok (t ∷ ts) zero = ok t
tok (t ∷ ts) (suc i) = tok ts i

abbrev found : Option ℕ → Result ℕ
found none = err assertion
found (some r) = ok r

unfoldable pub find_reg : Chars → Result ℕ
find_reg name = found (reg_of_name name)

-- The longest front of a text whose characters pass a test, and what follows it.
unfoldable pub take_while : (ℕ → Bool) → Chars → Chars
take_while p [] = []
take_while p (c ∷ s) = let rest = take_while p s in if p c then c ∷ rest else []

unfoldable pub drop_while : (ℕ → Bool) → Chars → Chars
drop_while p [] = []
drop_while p (c ∷ s) = let rest = drop_while p s in if p c then rest else c ∷ s

-- The characters of a number, and those of an identifier.
abbrev pub in_number : ℕ → Bool
in_number c = is_digit c || c == 45

abbrev pub in_identifier : ℕ → Bool
in_identifier c = is_alnum c || c == 95

unfoldable pub parse_offset_reg : Chars → Result (ℕ × Chars)
unfolding take_while drop_while
parse_offset_reg input = do
  num ← stoi (take_while in_number input)
  ok (num, take_while in_identifier (drop_while in_number input))

-- The number of the first `k` binary digits behind `n`.
unfoldable pub bits_value : ℕ → ℕ → Chars → ℕ
bits_value zero n s = n
bits_value (suc k) n [] = n
bits_value (suc k) n (c ∷ s) = bits_value k (n * 2 + (c - 48)) s

unfoldable pub all_bits : Chars → Bool
all_bits [] = true
all_bits (c ∷ s) = (c == 48 || c == 49) && all_bits s

-- It throws `std::invalid_argument` at another character.
unfoldable pub bitset5 : Chars → Result ℕ
unfolding bits_value all_bits
bitset5 s = if all_bits s then ok (bits_value 5 0 s) else err thrown
