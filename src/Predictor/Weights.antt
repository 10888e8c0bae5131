-- ===== src/Predictor/Weights.antt =====
-- The weights of the perceptron of include/RIPSimulator/BranchPredictor.h.
use rip_sim.Base.{
  ℕ, zero, suc, ◌+◌, ◌≤◌, ◌<◌, ◌^◌, ◌≡◌, refl, arith, ◌∙◌, Bool, ℤ, pos, negsuc, ◌>>>◌, ◌==◌,
  if◌then◌else◌, update, ◌+ℤ◌, ◌*ℤ◌, pos_part, neg_part, xor, leb, ltb_ℤ, ◌||◌, Bool-cases, inl,
  inr,
}
use rip_sim.Predictor.Index.{get_lower_n_bits, clamp}
use rip_sim.Predictor.Perceptron.{Perceptron, train, sign_of, learn}

-- The weights of six bits: between -32 and 31.
abbrev pub IsSmall : ℤ → Type 0
IsSmall v = (pos_part v ≤ 31) × (neg_part v ≤ 32)

-- The weight `w` after a step of training with `t`, for the outcome in the lowest bit of `h`.
abbrev pub trained : ℤ → ℕ → ℤ → ℤ
trained t h w = clamp (w +ℤ t *ℤ sign_of h) (negsuc 31) (pos 31)

trained-IsSmall : (t : ℤ) (h : ℕ) (w : ℤ) → IsSmall (trained t h w)
unfolding clamp
trained-IsSmall t h w = ground arith

train_before : (left i h : ℕ) (t : ℤ) (row : ℕ → ℤ) (j : ℕ) → j < i → train left i h t row j ≡ row j
unfolding train
train_before zero i h t row j lt = refl
train_before (suc left) i h t row j lt =
    train_before left (i + 1) (h >>> 1) t (update row i (trained t h (row i))) j (omega arith)
    ∙ ground arith

-- The loop leaves every weight in its range small.
train-IsSmall :
    (left i h : ℕ) (t : ℤ) (row : ℕ → ℤ) (j : ℕ)
    → i ≤ j
    → j < i + left
    → IsSmall (train left i h t row j)
unfolding train
train-IsSmall zero i h t row j lo hi = absurd (omega arith)
train-IsSmall (suc left) i h t row j lo hi =
    let row' = update row i (trained t h (row i)) in
    elim (Bool-cases (j == i)) [
      | inl e ↦ ground (
        arith,
        train_before left (i + 1) (h >>> 1) t row' j (ground arith),
        trained-IsSmall t h (row i),
      )
      | inr e ↦ train-IsSmall left (i + 1) (h >>> 1) t row' j (ground arith) (ground arith)
    ]

-- Every weight of the perceptron but the bias, at index 0 of a row, has six bits.
abbrev pub IsBounded : Perceptron → Type 0
IsBounded p = (i j : ℕ) → 1 ≤ j → j ≤ 10 → IsSmall (p.weight_array i j)

-- If every weight of the perceptron predictor but the biases lies between -32 and 31, learning
-- keeps it so, and the history it leaves is below 2 ^ 10.
pub learn-IsBounded :
    (cond : Bool) (pc : ℕ) (p : Perceptron)
    → IsBounded p
    → IsBounded (learn cond pc p) × ((learn cond pc p).branch_history < 2 ^ 10)
unfolding learn
learn-IsBounded cond pc p h = (
  λ i j lo hi.
      let index = get_lower_n_bits (pc >>> 2) 10 in
      let t : ℤ = if cond then pos 1 else negsuc 0 in
      let row = p.weight_array index in
      let biased = update row 0 (row 0 +ℤ t) in
      let trained_row = train-IsSmall 10 1 p.branch_history t biased j lo (omega arith) in
      elim (Bool-cases (xor (ltb_ℤ (pos 0) p.y) cond || leb (pos_part p.y + neg_part p.y) 33)) [
        | inl e ↦ elim (Bool-cases (i == index)) [
          | inl at ↦ rw (e, at) trained_row
          | inr at ↦ rw (e, at) (h i j lo hi)
        ]
        | inr e ↦ rw e (h i j lo hi)
      ],
  ground arith,
)
