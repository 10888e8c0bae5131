-- ===== src/Registers.antt =====
-- include/Registers.h: the general-purpose registers.
pub mod Laws
pub mod Names
use rip_sim.Base.{
  ℕ, ◌+◌, ◌^◌, ◌%◌, not, u32, add32, ltb, ◌==◌, if◌then◌else◌, Result, ok, assertion, guard, ◌>>=◌,
  ◌>>◌, update, Option, none, some, List, [], ◌∷◌,
}

abbrev pub reg_num : ℕ
reg_num = 32

-- `Regs[i]` for `i < 32`.
abbrev pub Registers : Type 0
Registers = ℕ → ℕ

-- The stack pointer: the given value, or the end of the DRAM.
abbrev stack_pointer : ℕ → ℕ → Option ℕ → ℕ
stack_pointer size base none = add32 (u32 size) (u32 base)
stack_pointer size base (some v) = u32 v

-- The first constructor.
unfoldable pub init : ℕ → ℕ → Option ℕ → Registers
init size base spi = update (λ _. 0) 2 (stack_pointer size base spi)

-- The second one, from a list of values for registers other than x0 and x2.
init_from : List (ℕ × ℕ) → Registers → Result Registers
init_from [] r = ok r
init_from ((i, v) ∷ ps) r = do
  guard (ltb i reg_num) assertion
  guard (not (i == 0)) assertion
  guard (not (i == 2)) assertion
  init_from ps (update r i v)

unfoldable pub init_with : List (ℕ × ℕ) → ℕ → ℕ → Option ℕ → Result Registers
unfolding init_from
init_with ps size base spi = do
  r ← init_from ps (λ _. 0)
  ok (update r 2 (stack_pointer size base spi))

unfoldable pub write : Registers → ℕ → ℕ → Result Registers
write r id val = do guard (ltb id reg_num) assertion; ok (if id == 0 then r else update r id val)

unfoldable pub read : Registers → ℕ → Result ℕ
read r index = do guard (ltb index reg_num) assertion; ok (r index)
