-- ===== src/Text/Long.antt =====
-- `std::stoll` in base 10 and 16, for a value that becomes an `Address`: the 64-bit pattern of the
-- `long long`.
use native.Mathlib.Nat.{div-add-mod', mod-lt, pow-zero, pow-suc, div-lt_iff_lt-mul}
use rip_sim.Base.{
  ℕ, zero, suc, ◌+◌, ◌-◌, ◌*◌, ◌/◌, ◌%◌, ◌^◌, ◌<◌, ◌≤◌, Bool, true, false, ◌&&◌, ◌||◌, [], ◌∷◌, ◌≡◌,
  ◌≢◌, refl, sym, ap, ◌∙◌, arith, ltb, leb, ◌==◌, if◌then◌else◌, Bool-cases, inl, inr, Result, ok,
  err, thrown,
}
use rip_sim.Text.Chars.{Chars, All}
use rip_sim.Text.Numbers.{drop_spaces}

-- The value of a digit of any base up to 16; 16 for any other character.
abbrev pub digit_value : ℕ → ℕ
digit_value c =
    if leb 48 c && leb c 57
    then c - 48
    else if leb 97 c && leb c 102
    then c - 87
    else if leb 65 c && leb c 70
    then c - 55
    else 16

abbrev pub IsDigit : ℕ → ℕ → Type 0
IsDigit base c = digit_value c < base

-- The number that the digits at the front spell behind `n`.
long_digits : ℕ → ℕ → Chars → ℕ
long_digits base n [] = n
long_digits base n (c ∷ s) = elim (ltb (digit_value c) base) [
  | true ↦ long_digits base (n * base + digit_value c) s
  | false ↦ n
]

abbrev starts_digit : ℕ → Chars → Bool
starts_digit base [] = false
starts_digit base (c ∷ s) = ltb (digit_value c) base

-- In base 16, "0x" before a digit is skipped.
skip_0x : Chars → Chars
skip_0x (a ∷ b ∷ c ∷ s) =
    if a == 48 && (b == 120 || b == 88) && ltb (digit_value c) 16 then c ∷ s else a ∷ b ∷ c ∷ s
skip_0x s = s

abbrev unprefixed : ℕ → Chars → Chars
unprefixed base s = if base == 16 then skip_0x s else s

long_of : Bool → ℕ → Chars → Result ℕ
long_of neg base s =
    let t = unprefixed base s in
    let n = long_digits base 0 t in
    if starts_digit base t
    then if neg
      then if leb n (2 ^ 63) then ok ((2 ^ 64 - n) % 2 ^ 64) else err thrown
      else if ltb n (2 ^ 63)
      then ok n
      else err thrown
    else err thrown

with_sign : ℕ → Chars → Result ℕ
with_sign base [] = err thrown
with_sign base (c ∷ s) =
    if c == 45
    then long_of true base s
    else if c == 43
    then long_of false base s
    else long_of false base (c ∷ s)

unfoldable pub stoll : ℕ → Chars → Result ℕ
unfolding drop_spaces long_digits skip_0x long_of with_sign
stoll base s = with_sign base (drop_spaces s)

abbrev pub digit_char : ℕ → ℕ
digit_char d = if ltb d 10 then 48 + d else 87 + d

-- The last `f` digits of `n` at most, in front of `out`.
print : ℕ → ℕ → ℕ → Chars → Chars
print base zero n out = out
print base (suc f) n out =
    let rest = print base f (n / base) (digit_char (n % base) ∷ out) in
    if n / base == 0 then digit_char (n % base) ∷ out else rest

-- A number below 2 ^ 63 in base 10 or 16.
unfoldable pub show_long : ℕ → ℕ → Chars
unfolding print
show_long base n = print base 19 n []

digit_value-char : (d : ℕ) → d < 16 → digit_value (digit_char d) ≡ d
digit_value-char d h = ground arith

module _ (base : ℕ) (low : 2 ≤ base) (high : base ≤ 16) where
  step_value :
      (n : ℕ) → (n / base * base + digit_value (digit_char (n % base)) ≡ n) × (n % base < base)
  step_value n =
      let small : n % base < base = mod-lt n (omega arith) in
      let back = digit_value-char (n % base) (omega arith) in
      (ap (λ (t : ℕ). n / base * base + t) back ∙ div-add-mod' n base, small)

  IsDigit-char : (n : ℕ) → IsDigit base (digit_char (n % base))
  IsDigit-char n =
      let (e, small) = step_value n in
      let back = digit_value-char (n % base) (omega arith) in omega arith

  long_digits_at :
      (m c : ℕ) (s : Chars)
      → IsDigit base c
      → long_digits base m (c ∷ s) ≡ long_digits base (m * base + digit_value c) s
  unfolding long_digits
  long_digits_at m c s h = let e : ltb (digit_value c) base ≡ true = ground arith in ground arith

  long_digits_cons :
      (n : ℕ) (out : Chars)
      → long_digits base (n / base) (digit_char (n % base) ∷ out) ≡ long_digits base n out
  long_digits_cons n out =
      long_digits_at (n / base) (digit_char (n % base)) out (IsDigit-char n)
      ∙ ap (λ k. long_digits base k out) (step_value n).0

  long_digits-print :
      (f n : ℕ) (out : Chars)
      → n < base ^ f
      → long_digits base 0 (print base f n out) ≡ long_digits base n out
  unfolding print
  long_digits-print zero n out h =
      let e : base ^ 0 ≡ 1 = pow-zero base in let z : n ≡ 0 = omega arith in rw z
  long_digits-print (suc f) n out h = elim (Bool-cases (n / base == 0)) [
    | inl e ↦
        let z : n / base ≡ 0 = ground arith in
        rw e (
          ap (λ k. long_digits base k (digit_char (n % base) ∷ out)) (sym z)
          ∙ long_digits_cons n out)
    | inr e ↦
        let less : n / base < base ^ f =
          (div-lt_iff_lt-mul (omega arith)).1 (omega (arith, pow-suc base f)) in
        rw e (
          long_digits-print f (n / base) (digit_char (n % base) ∷ out) less
          ∙ long_digits_cons n out)
  ]

  print-IsDigit :
      (f n : ℕ) (out : Chars) → All (IsDigit base) out → All (IsDigit base) (print base f n out)
  unfolding print
  print-IsDigit zero n out h = h
  print-IsDigit (suc f) n out h = elim (Bool-cases (n / base == 0)) [
    | inl e ↦ rw e (IsDigit-char n, h)
    | inr e ↦ rw e (print-IsDigit f (n / base) (digit_char (n % base) ∷ out) (IsDigit-char n, h))
  ]

  print-ne-nil : (f n : ℕ) (out : Chars) → out ≢ [] → print base f n out ≢ []
  unfolding print
  print-ne-nil zero n out h = h
  print-ne-nil (suc f) n out h = elim (Bool-cases (n / base == 0)) [
    | inl e ↦ rw e (cc)
    | inr e ↦ rw e (print-ne-nil f (n / base) (digit_char (n % base) ∷ out) (cc))
  ]

  print-suc-ne-nil : (f n : ℕ) (out : Chars) → print base (suc f) n out ≢ []
  unfolding print
  print-suc-ne-nil f n out = elim (Bool-cases (n / base == 0)) [
    | inl e ↦ rw e (cc)
    | inr e ↦ rw e (print-ne-nil f (n / base) (digit_char (n % base) ∷ out) (cc))
  ]

if_same_and : (x y : Bool) (s t : Chars) → (if x && false && y then s else t) ≡ t
if_same_and true y s t = refl
if_same_and false y s t = refl

skip_0x_digits : (base : ℕ) (s : Chars) → base ≤ 16 → All (IsDigit base) s → skip_0x s ≡ s
unfolding skip_0x
skip_0x_digits base [] high h = refl
skip_0x_digits base (a ∷ []) high h = refl
skip_0x_digits base (a ∷ b ∷ []) high h = refl
skip_0x_digits base (a ∷ b ∷ c ∷ s) high h =
    let hb = h.1.0 in
    let t : (b == 120 || b == 88) ≡ false = ground arith in rw t (if_same_and (a == 48) _ _ _)

unprefixed_digits :
    (base : ℕ) (s : Chars) → base ≤ 16 → All (IsDigit base) s → unprefixed base s ≡ s
unprefixed_digits base s high h = elim (Bool-cases (base == 16)) [
  | inl e ↦ rw e (skip_0x_digits base s high h)
  | inr e ↦ rw e refl
]

sign_digits :
    (base c : ℕ) (s : Chars)
    → base ≤ 16
    → IsDigit base c
    → with_sign base (drop_spaces (c ∷ s)) ≡ long_of false base (c ∷ s)
unfolding with_sign drop_spaces
sign_digits base c s high h = ground arith

long_of_digits :
    (base : ℕ) (s : Chars)
    → unprefixed base s ≡ s
    → starts_digit base s ≡ true
    → long_digits base 0 s < 2 ^ 63
    → long_of false base s ≡ ok (long_digits base 0 s)
unfolding long_of
long_of_digits base s u d fits = rw (u, d) (ground arith)

stoll_digits :
    (base : ℕ) (s : Chars)
    → base ≤ 16
    → s ≢ []
    → All (IsDigit base) s
    → long_digits base 0 s < 2 ^ 63
    → stoll base s ≡ ok (long_digits base 0 s)
unfolding stoll
stoll_digits base [] high ne h fits = absurd (ne refl)
stoll_digits base (c ∷ s) high ne h fits =
    let hc = h.0 in
    sign_digits base c s high hc
    ∙ long_of_digits base (c ∷ s) (unprefixed_digits base (c ∷ s) high h) (ground arith) fits

-- `stoll` reads back what is printed in base 10 or 16.
pub stoll-show_long :
    (base n : ℕ)
    → 10 ≤ base
    → base ≤ 16
    → n < 2 ^ 63
    → n < base ^ 19
    → stoll base (show_long base n) ≡ ok n
unfolding show_long
stoll-show_long base n low high fits short =
    let v : long_digits base 0 (print base 19 n []) ≡ n =
      long_digits-print base (omega arith) high 19 n [] short ∙ (unfold long_digits in refl) in
    stoll_digits base (print base 19 n []) high (print-suc-ne-nil base (omega arith) high 18 n [])
      (print-IsDigit base (omega arith) high 19 n [] tt) (omega (arith, v))
    ∙ ap ok v
