-- ===== src/Registers/Names.antt =====
-- `GPRegMap` and `ABI` of include/Registers.h: the names of the registers, read and printed.
use rip_sim.Base.{
  ℕ, zero, suc, ◌<◌, Bool, true, false, not, ◌||◌, ◌&&◌, List, [], ◌∷◌, ◌≡◌, ◌≢◌, refl, arith, ◌==◌,
  Option, none, some, Option-cases, inl, inr, Result, ok, err, assertion,
}
use rip_sim.Text.Chars.{Chars, codes, find, All}
use rip_sim.Text.Split.{words}
use rip_sim.Registers.{Registers}

abbrev gp_reg_map : List (Chars × ℕ)
gp_reg_map =
    (codes "x0", 0)
    ∷ (codes "zero", 0)
    ∷ (codes "x1", 1)
    ∷ (codes "ra", 1)
    ∷ (codes "x2", 2)
    ∷ (codes "sp", 2)
    ∷ (codes "x3", 3)
    ∷ (codes "gp", 3)
    ∷ (codes "x4", 4)
    ∷ (codes "tp", 4)
    ∷ (codes "x5", 5)
    ∷ (codes "t0", 5)
    ∷ (codes "x6", 6)
    ∷ (codes "t1", 6)
    ∷ (codes "x7", 7)
    ∷ (codes "t2", 7)
    ∷ (codes "x8", 8)
    ∷ (codes "s0", 8)
    ∷ (codes "fp", 8)
    ∷ (codes "x9", 9)
    ∷ (codes "s1", 9)
    ∷ (codes "x10", 10)
    ∷ (codes "a0", 10)
    ∷ (codes "x11", 11)
    ∷ (codes "a1", 11)
    ∷ (codes "x12", 12)
    ∷ (codes "a2", 12)
    ∷ (codes "x13", 13)
    ∷ (codes "a3", 13)
    ∷ (codes "x14", 14)
    ∷ (codes "a4", 14)
    ∷ (codes "x15", 15)
    ∷ (codes "a5", 15)
    ∷ (codes "x16", 16)
    ∷ (codes "a6", 16)
    ∷ (codes "x17", 17)
    ∷ (codes "a7", 17)
    ∷ (codes "x18", 18)
    ∷ (codes "s2", 18)
    ∷ (codes "x19", 19)
    ∷ (codes "s3", 19)
    ∷ (codes "x20", 20)
    ∷ (codes "s4", 20)
    ∷ (codes "x21", 21)
    ∷ (codes "s5", 21)
    ∷ (codes "x22", 22)
    ∷ (codes "s6", 22)
    ∷ (codes "x23", 23)
    ∷ (codes "s7", 23)
    ∷ (codes "x24", 24)
    ∷ (codes "s8", 24)
    ∷ (codes "x25", 25)
    ∷ (codes "s9", 25)
    ∷ (codes "x26", 26)
    ∷ (codes "s10", 26)
    ∷ (codes "x27", 27)
    ∷ (codes "s11", 27)
    ∷ (codes "x28", 28)
    ∷ (codes "t3", 28)
    ∷ (codes "x29", 29)
    ∷ (codes "t4", 29)
    ∷ (codes "x30", 30)
    ∷ (codes "t5", 30)
    ∷ (codes "x31", 31)
    ∷ (codes "t6", 31)
    ∷ []

-- `GPRegMap.find`.
unfoldable pub reg_of_name : Chars → Option ℕ
unfolding find
reg_of_name name = find gp_reg_map name

abbrev reg_at : Registers → Option ℕ → Result ℕ
reg_at r none = err assertion
reg_at r (some i) = ok (r i)

-- `operator[]` with a name.
pub read_name : Registers → Chars → Result ℕ
unfolding reg_of_name
read_name r name = reg_at r (reg_of_name name)

abbrev abi_names : List Chars
abi_names =
    codes "zero"
    ∷ codes " ra "
    ∷ codes " sp "
    ∷ codes " gp "
    ∷ codes " tp "
    ∷ codes " t0 "
    ∷ codes " t1 "
    ∷ codes " t2 "
    ∷ codes " s0 "
    ∷ codes " s1 "
    ∷ codes " a0 "
    ∷ codes " a1 "
    ∷ codes " a2 "
    ∷ codes " a3 "
    ∷ codes " a4 "
    ∷ codes " a5 "
    ∷ codes " a6 "
    ∷ codes " a7 "
    ∷ codes " s2 "
    ∷ codes " s3 "
    ∷ codes " s4 "
    ∷ codes " s5 "
    ∷ codes " s6 "
    ∷ codes " s7 "
    ∷ codes " s8 "
    ∷ codes " s9 "
    ∷ codes " s10"
    ∷ codes " s11"
    ∷ codes " t3 "
    ∷ codes " t4 "
    ∷ codes " t5 "
    ∷ codes " t6 "
    ∷ []

abbrev get_or : List Chars → ℕ → Chars → Chars
get_or [] i d = d
get_or (x ∷ xs) zero d = x
get_or (x ∷ xs) (suc i) d = get_or xs i d

-- `ABI[i]`; the index is a `std::bitset<5>`, and so in the array.
unfoldable pub abi : ℕ → Chars
abi i = get_or abi_names i []

-- A character that ends no line, no operand and no label.
abbrev pub InLine : ℕ → Type 0
InLine c = (c ≢ 10) × (c ≢ 44) × (c ≢ 58)

-- What is printed for a register is one token, which names that register.
pub record Names (i : ℕ) : Type 0 where
  pub token : Chars
  pub is_word : words (abi i) ≡ token ∷ []
  pub named : reg_of_name token ≡ some i
  pub in_line : All InLine (abi i)

is_name_of : ℕ → List Chars → Bool
is_name_of i (w ∷ []) = elim (reg_of_name w) [ none ↦ false | some j ↦ j == i ]
is_name_of i _ = false

all_in_line : Chars → Bool
all_in_line [] = true
all_in_line (c ∷ s) = not (c == 10 || c == 44 || c == 58) && all_in_line s

at-all_in_line : (s : Chars) → all_in_line s ≡ true → All InLine s
unfolding all_in_line
at-all_in_line [] h = tt
at-all_in_line (c ∷ s) h = (ground arith, at-all_in_line s (ground arith))

all_below : ℕ → (ℕ → Bool) → Bool
all_below zero p = true
all_below (suc n) p = p n && all_below n p

at-all_below : (n : ℕ) (p : ℕ → Bool) (i : ℕ) → all_below n p ≡ true → i < n → p i ≡ true
unfolding all_below
at-all_below zero p i h lt = absurd (omega arith)
at-all_below (suc n) p i h lt = ground (arith, at-all_below n p i)

all_named : all_below 32 (λ i. is_name_of i (words (abi i))) ≡ true
unfolding all_below is_name_of words reg_of_name abi
all_named = refl

all_lists : List Chars → Bool
unfolding all_in_line
all_lists [] = true
all_lists (x ∷ xs) = all_in_line x && all_lists xs

get_or-InLine : (xs : List Chars) (i : ℕ) → all_lists xs ≡ true → All InLine (get_or xs i [])
unfolding all_lists
get_or-InLine [] i h = tt
get_or-InLine (x ∷ xs) zero h = at-all_in_line x (ground arith)
get_or-InLine (x ∷ xs) (suc i) h = get_or-InLine xs i (ground arith)

pub abi-InLine : (i : ℕ) → All InLine (abi i)
unfolding all_lists abi
abi-InLine i = get_or-InLine abi_names i refl

named_of :
    (i : ℕ) (ws : List Chars)
    → words (abi i) ≡ ws
    → is_name_of i ws ≡ true
    → All InLine (abi i)
    → Names i
unfolding is_name_of
named_of i [] e h l = cc
named_of i (w ∷ []) e h l = elim (Option-cases (reg_of_name w)) [
  | inl n ↦ absurd (ground arith)
  | inr (j, n) ↦ record { token = w; is_word = e; named = ground arith; in_line = l }
]
named_of i (w ∷ v ∷ ws) e h l = cc

pub abi-Names : (i : ℕ) → i < 32 → Names i
abi-Names i h = named_of i (words (abi i)) refl (at-all_below 32 _ i all_named h) (abi-InLine i)
