-- ===== src/Base/Bits.antt =====
-- `&` with a mask of adjacent ones and `|` of disjoint fields, as arithmetic, at every width.
mod Step
mod Bounds
use Step.{bit_or_digit, bit_and_digit}
pub use Bounds.{bit_and_le, bit_or_ge, bit_or_lt, bit_xor_lt}
use Prim.Native.Nat.{
  ℕ, zero, suc, ◌+◌, ◌-◌, ◌*◌, ◌/◌, ◌%◌, ◌^◌, ◌≤◌, ◌<◌, bit_and, bit_or, bit_or-bitwise,
}
use mathlib.Core.Path.{◌≡◌, refl, ap, ap₂, sym, ◌∙◌}
use native.Mathlib.Nat.{pow-suc, one-le-pow, div-add-mod', mod-lt, mod-mod}
use native.Mathlib.Omega.{arith}

-- Both go from `x / 2` to `x`, on fuel.
zero_digits : (fuel x : ℕ) → x ≤ fuel → (bit_and x 0 ≡ 0) × (bit_or x 0 ≡ x)
zero_digits zero (suc x) enough = absurd (omega arith)
zero_digits fuel zero enough = (refl, refl)
zero_digits (suc fuel) (suc x) enough =
    let half = zero_digits fuel (suc x / 2) (omega arith) in
    (omega (arith, bit_and_digit (suc x) 0, half), omega (arith, bit_or_digit (suc x) 0, half))

pub bit_and-zero : (x : ℕ) → bit_and x 0 ≡ 0
bit_and-zero x = (zero_digits x x (omega arith)).0

pub bit_or-zero : (x : ℕ) → bit_or x 0 ≡ x
bit_or-zero x = (zero_digits x x (omega arith)).1

mul-pow-suc : (q k : ℕ) → q * 2 ^ suc k ≡ 2 * (q * 2 ^ k)
mul-pow-suc q k = omega (arith, ap (λ (t : ℕ). q * t) (pow-suc 2 k))

-- `|` of fields that do not overlap is their sum.
bit_or_shifted : (k q r : ℕ) → r < 2 ^ k → bit_or (q * 2 ^ k) r ≡ q * 2 ^ k + r
bit_or_shifted zero q r fits = ground (arith, bit_or-zero q)
bit_or_shifted (suc k) q r fits = ground (
  arith,
  bit_or_digit (q * 2 ^ suc k) r,
  mul-pow-suc q k,
  pow-suc 2 k,
  bit_or_shifted k q (r / 2) (ground (arith, pow-suc 2 k)),
)

pub bit_or_disjoint : (k a r : ℕ) → a % 2 ^ k ≡ 0 → r < 2 ^ k → bit_or a r ≡ a + r
bit_or_disjoint k a r h fits =
    let e : a ≡ a / 2 ^ k * 2 ^ k = ground (arith, one-le-pow k 2) in
    ap (λ t. bit_or t r) e ∙ bit_or_shifted k (a / 2 ^ k) r fits ∙ ap (λ t. t + r) (sym e)

-- `&` and `|` act on the two parts of a number cut at any bit.
bit_and_cut :
    (k h l q r : ℕ)
    → l < 2 ^ k
    → r < 2 ^ k
    → bit_and (h * 2 ^ k + l) (q * 2 ^ k + r) ≡ bit_and h q * 2 ^ k + bit_and l r
bit_and_cut zero h l q r hl hr =
    let el : l ≡ 0 = omega arith in let er : r ≡ 0 = omega arith in rw (el, er) (ground arith)
bit_and_cut (suc k) h l q r hl hr = ground (
  arith,
  mul-pow-suc h k,
  mul-pow-suc q k,
  mul-pow-suc (bit_and h q) k,
  pow-suc 2 k,
  bit_and_digit (h * 2 ^ suc k + l) (q * 2 ^ suc k + r),
  bit_and_digit l r,
  bit_and_cut k h (l / 2) q (r / 2) (ground (arith, pow-suc 2 k)) (ground (arith, pow-suc 2 k)),
)

bit_or_cut :
    (k h l q r : ℕ)
    → l < 2 ^ k
    → r < 2 ^ k
    → bit_or (h * 2 ^ k + l) (q * 2 ^ k + r) ≡ bit_or h q * 2 ^ k + bit_or l r
bit_or_cut zero h l q r hl hr =
    let el : l ≡ 0 = omega arith in let er : r ≡ 0 = omega arith in rw (el, er) (ground arith)
bit_or_cut (suc k) h l q r hl hr = ground (
  arith,
  mul-pow-suc h k,
  mul-pow-suc q k,
  mul-pow-suc (bit_or h q) k,
  pow-suc 2 k,
  bit_or_digit (h * 2 ^ suc k + l) (q * 2 ^ suc k + r),
  bit_or_digit l r,
  bit_or_cut k h (l / 2) q (r / 2) (ground (arith, pow-suc 2 k)) (ground (arith, pow-suc 2 k)),
)

module _ (k a b : ℕ) where
  above : (n : ℕ) → n / 2 ^ k * 2 ^ k + n % 2 ^ k ≡ n
  above n = div-add-mod' n (2 ^ k)

  below : (n : ℕ) → n % 2 ^ k < 2 ^ k
  below n = mod-lt n (one-le-pow k 2 (omega arith))

  pub bit_and_split :
      bit_and a b ≡ bit_and (a / 2 ^ k) (b / 2 ^ k) * 2 ^ k + bit_and (a % 2 ^ k) (b % 2 ^ k)
  bit_and_split =
      ap₂ bit_and (sym (above a)) (sym (above b))
      ∙ bit_and_cut k (a / 2 ^ k) (a % 2 ^ k) (b / 2 ^ k) (b % 2 ^ k) (below a) (below b)

  pub bit_or_split :
      bit_or a b ≡ bit_or (a / 2 ^ k) (b / 2 ^ k) * 2 ^ k + bit_or (a % 2 ^ k) (b % 2 ^ k)
  bit_or_split =
      ap₂ bit_or (sym (above a)) (sym (above b))
      ∙ bit_or_cut k (a / 2 ^ k) (a % 2 ^ k) (b / 2 ^ k) (b % 2 ^ k) (below a) (below b)

bit_and_ones_below : (k q r : ℕ) → r < 2 ^ k → bit_and (q * 2 ^ k + r) (2 ^ k - 1) ≡ r
bit_and_ones_below zero q r h = ground (arith, bit_and-zero (q * 1 + r))
bit_and_ones_below (suc k) q r h = ground (
  arith,
  mul-pow-suc q k,
  pow-suc 2 k,
  one-le-pow k 2,
  bit_and_digit (q * 2 ^ suc k + r) (2 ^ suc k - 1),
  bit_and_ones_below k q (r / 2),
)

-- A mask of `k` ones is a remainder.
pub bit_and_ones : (k a : ℕ) → bit_and a (2 ^ k - 1) ≡ a % 2 ^ k
bit_and_ones k a =
    ap (λ t. bit_and t (2 ^ k - 1)) (sym (above k a a a))
    ∙ bit_and_ones_below k (a / 2 ^ k) (a % 2 ^ k) (below k a a a)

-- A mask of `k` ones above `s` zeros selects a field.
pub bit_and_field : (k s a : ℕ) → bit_and a ((2 ^ k - 1) * 2 ^ s) ≡ a / 2 ^ s % 2 ^ k * 2 ^ s
bit_and_field k s a =
    ap₂ bit_and (sym (above s a a a)) (omega arith)
    ∙ bit_and_cut s (a / 2 ^ s) (a % 2 ^ s) (2 ^ k - 1) 0 (below s a a a)
        (one-le-pow s 2 (omega arith))
    ∙ ap₂ (λ x y. x * 2 ^ s + y) (bit_and_ones k (a / 2 ^ s)) (bit_and-zero (a % 2 ^ s))
    ∙ omega arith

-- A mask of `h` ones, `k` zeros and `s` ones cuts the middle field out.
pub bit_and_hole :
    (h k s v : ℕ)
    → bit_and v ((2 ^ h - 1) * 2 ^ k * 2 ^ s + (2 ^ s - 1))
      ≡ v / 2 ^ s / 2 ^ k % 2 ^ h * 2 ^ k * 2 ^ s + v % 2 ^ s
bit_and_hole h k s v =
    let low : 2 ^ s - 1 < 2 ^ s = ground (arith, one-le-pow s 2) in
    ap (λ t. bit_and t ((2 ^ h - 1) * 2 ^ k * 2 ^ s + (2 ^ s - 1))) (sym (above s v v v))
    ∙ bit_and_cut s (v / 2 ^ s) (v % 2 ^ s) ((2 ^ h - 1) * 2 ^ k) (2 ^ s - 1) (below s v v v) low
    ∙ ap₂ (λ x y. x * 2 ^ s + y) (bit_and_field h k (v / 2 ^ s))
        (bit_and_ones s (v % 2 ^ s) ∙ mod-mod v (2 ^ s))

-- `|` fills a field that is zero.
pub bit_or_fill :
    (k s a f : ℕ) → a / 2 ^ s % 2 ^ k ≡ 0 → f < 2 ^ k → bit_or a (f * 2 ^ s) ≡ a + f * 2 ^ s
bit_or_fill k s a f empty fits =
    ap₂ bit_or (sym (above s a a a)) (omega arith)
    ∙ bit_or_cut s (a / 2 ^ s) (a % 2 ^ s) f 0 (below s a a a) (one-le-pow s 2 (omega arith))
    ∙ ap₂ (λ x y. x * 2 ^ s + y) (bit_or_disjoint k (a / 2 ^ s) f empty fits)
        (bit_or-zero (a % 2 ^ s))
    ∙ omega (arith, above s a a a)

zero-bit_or : (y : ℕ) → bit_or 0 y ≡ y
zero-bit_or y = simp bit_or-bitwise refl

or_digits_comm : (fuel x y : ℕ) → x ≤ fuel → bit_or x y ≡ bit_or y x
or_digits_comm zero (suc x) y enough = absurd (omega arith)
or_digits_comm fuel zero y enough = zero-bit_or y ∙ sym (bit_or-zero y)
or_digits_comm (suc fuel) (suc x) y enough =
    let half = or_digits_comm fuel (suc x / 2) (y / 2) (omega arith) in
    omega (arith, bit_or_digit (suc x) y, bit_or_digit y (suc x), half)

pub bit_or_comm : (x y : ℕ) → bit_or x y ≡ bit_or y x
bit_or_comm x y = or_digits_comm x x y (omega arith)
