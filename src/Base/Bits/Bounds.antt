-- ===== src/Base/Bits/Bounds.antt =====
-- `&`, `|` and `^` of numbers of `k` bits have `k` bits.
use Prim.Native.Nat.{
  ℕ, zero, suc, ◌/◌, ◌%◌, ◌^◌, ◌≤◌, ◌<◌, bit_and, bit_or, bit_xor, bit_and-bitwise, differ,
}
use mathlib.Core.Path.{◌≡◌}
use native.Mathlib.Nat.{pow-suc}
use native.Mathlib.Omega.{arith}
use rip_sim.Base.Bits.Step.{bit_and_digit, bit_or_digit, bit_xor_digit}

and_le : (fuel x y : ℕ) → x ≤ fuel → bit_and x y ≤ x
and_le zero (suc x) y enough = absurd (omega arith)
and_le fuel zero y enough = simp bit_and-bitwise (omega arith)
and_le (suc fuel) (suc x) y enough =
    let half = and_le fuel (suc x / 2) (y / 2) (omega arith) in
    omega (arith, bit_and_digit (suc x) y, half)

pub bit_and_le : (x y : ℕ) → bit_and x y ≤ x
bit_and_le x y = and_le x x y (omega arith)

pub bit_or_lt : (k x y : ℕ) → x < 2 ^ k → y < 2 ^ k → bit_or x y < 2 ^ k
bit_or_lt zero x y hx hy =
    let ex : x ≡ 0 = omega arith in let ey : y ≡ 0 = omega arith in rw (ex, ey) (omega arith)
bit_or_lt (suc k) x y hx hy =
    let e = pow-suc 2 k in
    let half = bit_or_lt k (x / 2) (y / 2) (omega arith) (omega arith) in
    omega (arith, bit_or_digit x y, half)

or_ge : (fuel x y : ℕ) → y ≤ fuel → y ≤ bit_or x y
or_ge zero x y enough = omega arith
or_ge (suc fuel) x zero enough = omega arith
or_ge (suc fuel) x (suc y) enough =
    let half = or_ge fuel (x / 2) (suc y / 2) (omega arith) in
    omega (arith, bit_or_digit x (suc y), half)

pub bit_or_ge : (x y : ℕ) → y ≤ bit_or x y
bit_or_ge x y = or_ge y x y (omega arith)

differ_lt : (a b : ℕ) → a < 2 → b < 2 → differ a b < 2
differ_lt zero b ha hb = hb
differ_lt (suc zero) zero ha hb = ha
differ_lt (suc zero) (suc b) ha hb = omega arith
differ_lt (suc (suc a)) b ha hb = absurd (omega arith)

pub bit_xor_lt : (k x y : ℕ) → x < 2 ^ k → y < 2 ^ k → bit_xor x y < 2 ^ k
bit_xor_lt zero x y hx hy =
    let ex : x ≡ 0 = omega arith in let ey : y ≡ 0 = omega arith in rw (ex, ey) (omega arith)
bit_xor_lt (suc k) x y hx hy =
    let e = pow-suc 2 k in
    let half = bit_xor_lt k (x / 2) (y / 2) (omega arith) (omega arith) in
    let digit = differ_lt (x % 2) (y % 2) (omega arith) (omega arith) in
    omega (arith, bit_xor_digit x y, half, digit)
