-- ===== src/Text/Chars.antt =====
-- `std::string` as a list of character codes, and the tests of <cctype> on one character.
use Prim.Native.Char.{code}
use Prim.Native.String.{String}
use rip_sim.Base.{
  ℕ, suc, Bool, true, false, ◌&&◌, ◌||◌, List, [], ◌∷◌, ◌++◌, ◌≡◌, refl, arith, leb, ◌==◌, Option,
  none, some, if◌then◌else◌,
}

abbrev pub Chars : Type 0
Chars = List ℕ

abbrev pub codes : String → Chars
codes String.[] = []
codes (String.◌∷◌ c s) = code c ∷ codes s

-- `std::isspace`, `std::isdigit` and `std::isalnum` in the C locale.
abbrev pub is_space : ℕ → Bool
is_space c = c == 32 || (leb 9 c && leb c 13)

abbrev pub is_digit : ℕ → Bool
is_digit c = leb 48 c && leb c 57

abbrev pub is_alnum : ℕ → Bool
is_alnum c = is_digit c || (leb 65 c && leb c 90) || (leb 97 c && leb c 122)

-- `==` of two strings.
unfoldable pub same : Chars → Chars → Bool
same [] [] = true
same (c ∷ s) (d ∷ t) = c == d && same s t
same _ _ = false

-- `find` of a `std::map` with string keys.
unfoldable pub find {ℓ} : {V : Type ℓ} → List (Chars × V) → Chars → Option V
unfolding same
find [] key = none
find ((k, v) ∷ m) key = if same k key then some v else find m key

abbrev pub length {ℓ} : {X : Type ℓ} → List X → ℕ
length [] = 0
length (x ∷ xs) = suc (length xs)

abbrev pub All {ℓ κ} : {X : Type ℓ} → (X → Type κ) → List X → Type κ
All P [] = Unit
All P (x ∷ xs) = P x × All P xs

pub same_refl : (s : Chars) → same s s ≡ true
unfolding same
same_refl [] = refl
same_refl (c ∷ s) = ground (arith, same_refl s)

module _ {ℓ κ} {X : Type ℓ} (P : X → Type κ) where
  pub All-append : (xs ys : List X) → All P xs → All P ys → All P (xs ++ ys)
  All-append [] ys hx hy = hy
  All-append (x ∷ xs) ys (px, hx) hy = (px, All-append xs ys hx hy)
