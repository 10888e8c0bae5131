-- ===== src/Text/Split.antt =====
-- `std::getline` with a delimiter, and `>>` into a `std::string`, each repeated until the stream has
-- no more to give.
use rip_sim.Base.{
  ℕ, ◌≤◌, true, false, List, [], ◌∷◌, ◌++◌, ◌≡◌, ◌≢◌, refl, sym, ap, arith, ◌==◌, if◌then◌else◌,
}
use mathlib.Core.List.{append_assoc, append-nil}
use rip_sim.Text.Chars.{Chars, is_space, All}

-- A character in front of the first piece.
abbrev attach : ℕ → List Chars → List Chars
attach c [] = (c ∷ []) ∷ []
attach c (p ∷ ps) = (c ∷ p) ∷ ps

-- What successive calls of `getline` read: the pieces between the delimiters, but no empty piece at
-- the end of the stream.
unfoldable pub pieces : ℕ → Chars → List Chars
pieces d [] = []
pieces d (c ∷ s) = let rest = pieces d s in if c == d then [] ∷ rest else attach c rest

-- The word read so far, unless it is empty.
abbrev flush : Chars → List Chars → List Chars
flush [] ws = ws
flush (c ∷ cs) ws = (c ∷ cs) ∷ ws

words_from : Chars → Chars → List Chars
words_from cur [] = flush cur []
words_from cur (c ∷ s) = elim (is_space c) [
  | true ↦ flush cur (words_from [] s)
  | false ↦ words_from (cur ++ c ∷ []) s
]

-- What successive `>>` read: the runs of characters that are no white space.
unfoldable pub words : Chars → List Chars
unfolding words_from
words s = words_from [] s

module _ (d : ℕ) where
  abbrev pub Lacks : Chars → Type 0
  Lacks = All (λ c. c ≢ d)

  pub pieces_line : (l rest : Chars) → Lacks l → pieces d (l ++ d ∷ rest) ≡ l ∷ pieces d rest
  unfolding pieces
  pieces_line [] rest h = ground arith
  pieces_line (c ∷ l) rest (hc, hl) = ground (arith, pieces_line l rest hl)

  -- A text without the delimiter is one piece.
  pub pieces_single : (c : ℕ) (s : Chars) → Lacks (c ∷ s) → pieces d (c ∷ s) ≡ (c ∷ s) ∷ []
  unfolding pieces
  pieces_single c [] (hc, hs) = ground arith
  pieces_single c (b ∷ s) (hc, hs) = ground (arith, pieces_single b s hs)

flush-append : (cur : Chars) (ws vs : List Chars) → flush cur (ws ++ vs) ≡ flush cur ws ++ vs
flush-append [] ws vs = refl
flush-append (c ∷ cur) ws vs = refl

words_from-append_space :
    (s cur t : Chars) → words_from cur (s ++ 32 ∷ t) ≡ words_from cur s ++ words_from [] t
unfolding words_from
words_from-append_space [] cur t = flush-append cur [] (words_from [] t)
words_from-append_space (c ∷ s) cur t = ground (
  arith,
  words_from-append_space s [] t,
  words_from-append_space s (cur ++ c ∷ []) t,
  flush-append cur (words_from [] s) (words_from [] t),
)

-- A blank ends a word.
pub words-append_space : (s t : Chars) → words (s ++ 32 ∷ t) ≡ words s ++ words t
unfolding words
words-append_space s t = words_from-append_space s [] t

-- Characters of which a token consists: they are no white space, no comma and no colon.
abbrev pub Plain : ℕ → Type 0
Plain c = (33 ≤ c) × (c ≢ 44) × (c ≢ 58)

words_from_word : (w cur : Chars) → All Plain w → words_from cur w ≡ flush (cur ++ w) []
unfolding words_from
words_from_word [] cur h = ap (λ v. flush v []) (sym (append-nil cur))
words_from_word (c ∷ w) cur (hc, hw) =
    ground (arith, words_from_word w (cur ++ c ∷ []) hw, append_assoc cur (c ∷ []) w)

pub words_single : (c : ℕ) (w : Chars) → All Plain (c ∷ w) → words (c ∷ w) ≡ (c ∷ w) ∷ []
unfolding words
words_single c w h = words_from_word (c ∷ w) [] h
