-- ===== src/Base/Bits/Step.antt =====
-- One equation for the lowest digit of `&`, `|` and `^`.
use Prim.Native.Nat.{
  ℕ, zero, suc, ◌+◌, ◌*◌, ◌/◌, ◌%◌, ◌≤◌, min, max, digits, bitwise, bit_and, bit_or,
  bit_and-bitwise, bit_or-bitwise, bit_xor, bit_xor-bitwise, differ,
}
use mathlib.Core.Path.{◌≡◌, refl}
use native.Mathlib.Nat.{le_refl}
use native.Mathlib.Omega.{arith}

-- `low` is what an exhausted first number gives, `op` acts on two digits.
module _ (low : ℕ → ℕ) (op : ℕ → ℕ → ℕ) where
  -- Fuel `k` and fuel `l` are both enough for `x`.
  digits_any_fuel : (x y k l : ℕ) → (x ≤ k) × (x ≤ l) → digits low op k x y ≡ digits low op l x y
  digits_any_fuel (suc x) y (suc k) (suc l) h =
      let e = digits_any_fuel (suc x / 2) (y / 2) k l (omega arith, omega arith) in rw e
  digits_any_fuel (suc x) y zero l h = absurd (omega arith)
  digits_any_fuel (suc x) y (suc k) zero h = absurd (omega arith)
  digits_any_fuel zero y (suc k) (suc l) h = refl
  digits_any_fuel zero y (suc k) zero h = refl
  digits_any_fuel zero y zero (suc l) h = refl
  digits_any_fuel zero y zero zero h = refl

  lowest_digit :
      (x y : ℕ)
      → op (suc x % 2) (y % 2) + 2 * bitwise low op (suc x / 2) (y / 2) ≡ bitwise low op (suc x) y
  lowest_digit x y =
      let half = suc x / 2 in
      omega (arith, digits_any_fuel half (y / 2) x half (omega arith, le_refl _))

pub bit_and_digit : (x y : ℕ) → bit_and x y ≡ bit_and (x / 2) (y / 2) * 2 + min (x % 2) (y % 2)
bit_and_digit (suc x) y =
    let e = lowest_digit (λ k. 0) min x y in simp bit_and-bitwise (omega (arith, e))
bit_and_digit zero y = simp bit_and-bitwise (omega arith)

pub bit_or_digit : (x y : ℕ) → bit_or x y ≡ bit_or (x / 2) (y / 2) * 2 + max (x % 2) (y % 2)
bit_or_digit (suc x) y =
    let e = lowest_digit (λ k. k) max x y in simp bit_or-bitwise (omega (arith, e))
bit_or_digit zero y = simp bit_or-bitwise (omega arith)

pub bit_xor_digit : (x y : ℕ) → bit_xor x y ≡ bit_xor (x / 2) (y / 2) * 2 + differ (x % 2) (y % 2)
bit_xor_digit (suc x) y =
    let e = lowest_digit (λ k. k) differ x y in simp bit_xor-bitwise (omega (arith, e))
bit_xor_digit zero y = simp bit_xor-bitwise (omega arith)
