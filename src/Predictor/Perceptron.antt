-- ===== src/Predictor/Perceptron.antt =====
-- `PerceptronBranchPredictor` of include/RIPSimulator/BranchPredictor.h. `Theta` and
-- `WeightBitwidth` are the values that its constructor computes from a history of ten bits, 33 and 6.
use rip_sim.Base.{
  ℕ, zero, suc, ◌+◌, ◌%◌, ◌^◌, u32, ◌<<<◌, ◌>>>◌, Bool, not, xor, ◌||◌, to_int, leb, ltb_ℤ, ◌+ℤ◌,
  ◌*ℤ◌, ◌==◌, if◌then◌else◌, update, ℤ, pos, negsuc, pos_part, neg_part,
}
use rip_sim.Predictor.Index.{get_lower_n_bits, clamp}

abbrev pub entry_bitwidth : ℕ
entry_bitwidth = 10

abbrev pub history_bitwidth : ℕ
history_bitwidth = 10

abbrev pub weight_bitwidth : ℕ
weight_bitwidth = 6

abbrev pub theta : ℕ
theta = 33

-- `weight_array` has 2 ^ 10 rows of 11 weights. `y` is not initialised by the source: here it is
-- an argument of `init_perceptron`.
pub record Perceptron : Type 0 where
  pub branch_history : ℕ
  pub weight_array : ℕ → ℕ → ℤ
  pub y : ℤ
  pub t : ℤ

abbrev pub init_perceptron : ℤ → Perceptron
init_perceptron y = record { branch_history = 0; weight_array = λ _ _. pos 0; y = y; t = pos 0 }

-- `(h % 2) == 0 ? -1 : 1`
abbrev pub sign_of : ℕ → ℤ
sign_of h = if h % 2 == 0 then negsuc 0 else pos 1

-- The loop over the weights of a row, with `left` rounds left at index `i`.
unfoldable pub train : ℕ → ℕ → ℕ → ℤ → (ℕ → ℤ) → ℕ → ℤ
train zero i h t row = row
train (suc left) i h t row =
    let w = clamp (row i +ℤ t *ℤ sign_of h) (negsuc 31) (pos 31) in
    train left (i + 1) (h >>> 1) t (update row i w)

-- `abs(y) <= Theta`
abbrev is_small : ℤ → Bool
is_small y = leb (pos_part y + neg_part y) theta

unfoldable pub learn : Bool → ℕ → Perceptron → Perceptron
learn cond pc p =
    let index = get_lower_n_bits (pc >>> 2) entry_bitwidth in
    let history = u32 (u32 (p.branch_history <<< 1) + to_int cond) % 2 ^ history_bitwidth in
    let t : ℤ = if cond then pos 1 else negsuc 0 in
    let row = p.weight_array index in
    let biased = update row 0 (row 0 +ℤ t) in
    if xor (ltb_ℤ (pos 0) p.y) cond || is_small p.y
    then record {
      branch_history = history;
      weight_array =
          update p.weight_array index (train history_bitwidth 1 p.branch_history t biased);
      y = p.y;
      t = t;
    }
    else record p { branch_history = history }

-- The loop of the prediction.
unfoldable pub dot : ℕ → ℕ → ℕ → (ℕ → ℤ) → ℤ → ℤ
dot zero i h row y = y
dot (suc left) i h row y = dot left (i + 1) (h >>> 1) row (y +ℤ row i *ℤ sign_of h)

unfoldable pub predict : ℕ → Perceptron → Bool × Perceptron
predict pc p =
    let row = p.weight_array (get_lower_n_bits (pc >>> 2) entry_bitwidth) in
    let y = dot history_bitwidth 1 p.branch_history row (row 0) in
    (not (ltb_ℤ y (pos 0)), record p { y = y })
