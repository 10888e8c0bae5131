-- ===== src/Text/Numbers.antt =====
-- `std::stoi`, and `<<` of an `int` in decimal. An `int` is its 32-bit pattern.
use rip_sim.Base.{
  ℕ, zero, suc, ◌+◌, ◌-◌, ◌*◌, ◌/◌, ◌%◌, ◌^◌, ◌<◌, ◌≤◌, Bool, true, false, [], ◌∷◌, ◌≡◌, ◌≢◌, refl,
  ap, ◌∙◌, arith, ltb, leb, ◌==◌, if◌then◌else◌, Bool-cases, inl, inr, Result, ok, err, thrown,
}
use rip_sim.Text.Chars.{Chars, is_space, is_digit, All}
use rip_sim.Text.Split.{Plain}

unfoldable pub drop_spaces : Chars → Chars
drop_spaces [] = []
drop_spaces (c ∷ s) = let rest = drop_spaces s in if is_space c then rest else c ∷ s

-- The number that the digits at the front spell behind `n`.
digits_value : ℕ → Chars → ℕ
digits_value n [] = n
digits_value n (c ∷ s) = elim (is_digit c) [ true ↦ digits_value (n * 10 + (c - 48)) s | false ↦ n ]

abbrev starts_digit : Chars → Bool
starts_digit [] = false
starts_digit (c ∷ s) = is_digit c

-- `stoi` behind the sign. It throws `std::invalid_argument` without a digit and
-- `std::out_of_range` beyond an `int`.
int_of : Bool → Chars → Result ℕ
int_of neg s =
    let n = digits_value 0 s in
    if starts_digit s
    then if neg
      then if leb n (2 ^ 31) then ok ((2 ^ 32 - n) % 2 ^ 32) else err thrown
      else if ltb n (2 ^ 31)
      then ok n
      else err thrown
    else err thrown

with_sign : Chars → Result ℕ
with_sign [] = err thrown
with_sign (c ∷ s) =
    if c == 45 then int_of true s else if c == 43 then int_of false s else int_of false (c ∷ s)

unfoldable pub stoi : Chars → Result ℕ
unfolding drop_spaces digits_value int_of with_sign
stoi s = with_sign (drop_spaces s)

-- The last `f` digits of `n` at most, in front of `out`.
print : ℕ → ℕ → Chars → Chars
print zero n out = out
print (suc f) n out =
    let rest = print f (n / 10) ((48 + n % 10) ∷ out) in
    if n / 10 == 0 then (48 + n % 10) ∷ out else rest

-- `<<` of an `int` with `std::dec`; it has ten digits at most.
unfoldable pub show_int : ℕ → Chars
unfolding print
show_int v = if ltb v (2 ^ 31) then print 10 v [] else 45 ∷ print 10 (2 ^ 32 - v) []

digits_value-print :
    (f n : ℕ) (out : Chars) → n < 10 ^ f → digits_value 0 (print f n out) ≡ digits_value n out
unfolding digits_value print
digits_value-print zero n out h = let e : n ≡ 0 = omega arith in rw e
digits_value-print (suc f) n out h =
    ground (arith, digits_value-print f (n / 10) ((48 + n % 10) ∷ out) (omega arith))

starts_digit-print :
    (f n : ℕ) (out : Chars) → starts_digit out ≡ true → starts_digit (print f n out) ≡ true
unfolding print
starts_digit-print zero n out h = h
starts_digit-print (suc f) n out h =
    ground (arith, starts_digit-print f (n / 10) ((48 + n % 10) ∷ out))

starts_digit-print-suc : (f n : ℕ) (out : Chars) → starts_digit (print (suc f) n out) ≡ true
unfolding print
starts_digit-print-suc f n out = ground (arith, starts_digit-print f (n / 10) ((48 + n % 10) ∷ out))

with_sign_digit : (s : Chars) → starts_digit s ≡ true → with_sign (drop_spaces s) ≡ int_of false s
unfolding with_sign drop_spaces
with_sign_digit [] h = ground arith
with_sign_digit (c ∷ s) h = ground arith

print-Plain : (f n : ℕ) (out : Chars) → All Plain out → All Plain (print f n out)
unfolding print
print-Plain zero n out h = h
print-Plain (suc f) n out h = elim (Bool-cases (n / 10 == 0)) [
  | inl e ↦ rw e (omega arith, h)
  | inr e ↦ rw e (print-Plain f (n / 10) ((48 + n % 10) ∷ out) (omega arith, h))
]

-- What `<<` prints of an `int` is one token.
pub show_int-Plain : (v : ℕ) → All Plain (show_int v)
unfolding show_int
show_int-Plain v = elim (Bool-cases (ltb v (2 ^ 31))) [
  | inl e ↦ rw e (print-Plain 10 v [] tt)
  | inr e ↦ rw e (omega arith, print-Plain 10 (2 ^ 32 - v) [] tt)
]

print_value : (f n : ℕ) → n < 10 ^ f → digits_value 0 (print f n []) ≡ n
print_value f n h = digits_value-print f n [] h ∙ (unfold digits_value in refl)

int_of-print_pos : (v : ℕ) → v < 2 ^ 31 → int_of false (print 10 v []) ≡ ok v
unfolding int_of
int_of-print_pos v h =
    rw (print_value 10 v (omega arith), starts_digit-print-suc 9 v []) (ground arith)

int_of-print_neg : (n : ℕ) → 0 < n → n ≤ 2 ^ 31 → int_of true (print 10 n []) ≡ ok (2 ^ 32 - n)
unfolding int_of
int_of-print_neg n h k =
    rw (print_value 10 n (omega arith), starts_digit-print-suc 9 n []) (ground arith)

-- `stoi` reads back every `int` that `<<` prints.
pub stoi-show_int : (v : ℕ) → v < 2 ^ 32 → stoi (show_int v) ≡ ok v
unfolding stoi show_int
stoi-show_int v h = elim (Bool-cases (ltb v (2 ^ 31))) [
  | inl e ↦ rw e (
      with_sign_digit (print 10 v []) (starts_digit-print-suc 9 v [])
      ∙ int_of-print_pos v (ground arith))
  | inr e ↦ rw e (int_of-print_neg (2 ^ 32 - v) (omega arith) (ground arith) ∙ ap ok (omega arith))
]

starts_digit-ne-nil : (s : Chars) → starts_digit s ≡ true → s ≢ []
starts_digit-ne-nil [] h = cc
starts_digit-ne-nil (c ∷ s) h = cc

pub show_int-ne-nil : (v : ℕ) → show_int v ≢ []
unfolding show_int
show_int-ne-nil v = elim (Bool-cases (ltb v (2 ^ 31))) [
  | inl e ↦ rw e (starts_digit-ne-nil _ (starts_digit-print-suc 9 v []))
  | inr e ↦ rw e (cc)
]
