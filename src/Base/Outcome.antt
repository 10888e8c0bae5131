-- ===== src/Base/Outcome.antt =====
-- Where the source asserts, or leaves the behaviour undefined, the model returns a fault.
use mathlib.Core.Bool.{Bool, true, false}

-- `assertion`: an `assert` of the source fails. `out_of_bounds`: an index beyond a vector or an
-- array. `bad_shift`: a shift by 32 or more. `null_fetch`: a null instruction is used. `thrown`: an
-- exception of the C++ library or a `std::runtime_error` that nothing catches.
pub data Fault : Type 0 where
  assertion out_of_bounds bad_shift null_fetch thrown : Fault

pub data Result {ℓ} (X : Type ℓ) : Type ℓ where
  ok : X → Result X
  err : Fault → Result X

infixl 5 ◌>>=◌ ◌>>◌
abbrev pub ◌>>=◌ {ℓ κ} : {X : Type ℓ} {Y : Type κ} → Result X → (X → Result Y) → Result Y
err fault >>= next = err fault
ok value >>= next = next value

abbrev pub ◌>>◌ {ℓ} : {Y : Type ℓ} → Result (Unit {0}) → Result Y → Result Y
first >> second = first >>= λ _. second

-- Goes on if the test holds.
abbrev pub guard : Bool → Fault → Result (Unit {0})
guard true e = ok tt
guard false e = err e

abbrev pub IsOk {ℓ} : {A : Type ℓ} → Result A → Type 0
IsOk (ok a) = Unit
IsOk (err e) = ⊥

-- What results, if anything does, satisfies `P`.
pub data AllOk {A : Type 0} (P : A → Type 0) : Result A → Type 0 where
  holds : {a : A} → P a → AllOk P (ok a)
  fails : {x : Fault} → AllOk P (err x)

pub any_ok : {A : Type 0} (r : Result A) → AllOk (λ _. Unit {0}) r
any_ok (ok a) = holds tt
any_ok (err x) = fails

pub all_bind :
    {A B : Type 0} {P : A → Type 0} {Q : B → Type 0} (r : Result A) (f : A → Result B)
    → AllOk P r
    → ((a : A) → P a → AllOk Q (f a))
    → AllOk Q (r >>= f)
all_bind (ok a) f (holds h) k = k a h
all_bind (err x) f fails k = fails

pub then_any :
    {A B : Type 0} {Q : B → Type 0} (r : Result A) (f : A → Result B)
    → ((a : A) → AllOk Q (f a))
    → AllOk Q (r >>= f)
then_any r f h = all_bind r f (any_ok r) (λ a u. h a)

pub of_ok : {A : Type 0} {P : A → Type 0} {a : A} → AllOk P (ok a) → P a
of_ok (holds h) = h
