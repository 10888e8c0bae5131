-- ===== src/Rip/Extension.antt =====
-- The sign extension at the head of lib/RIPSimulator/RIPSimulator.cpp against that of
-- include/Instructions.h.
use mathlib.Core.Path.{subst}
use native.Mathlib.Decide.{dec_lt}
use rip_sim.Base.{
  zero, suc, ℕ, ◌+◌, ◌-◌, ◌*◌, ◌/◌, ◌%◌, ◌^◌, ◌<◌, ◌≤◌, ◌≡◌, ◌⊎◌, ◌↔◌, arith, refl, bit_or,
  bit_and_ones, bit_or_disjoint, bit_or_split, ◌∙◌, ap, ◌>>>◌, if◌then◌else◌, ◌==◌,
}
use rip_sim.Insts
use rip_sim.Rip.State.{sign_extend}

-- The two agree on the immediates of I- and S-type instructions.
pub sign_extend_12 : (x : ℕ) → x < 2 ^ 12 → sign_extend x 12 ≡ Insts.sign_extend 12 x
sign_extend_12 x h =
    ground (arith, bit_and_ones 1 (x >>> 11), bit_or_disjoint 12 (2 ^ 32 - 2 ^ 12) x)

-- For a 13-bit branch immediate, the sign extension of the pipeline is that of the instruction
-- classes.
pub sign_extend_13 : (x : ℕ) → x < 2 ^ 13 → sign_extend x 13 ≡ Insts.sign_extend 13 x
sign_extend_13 x h =
    ground (arith, bit_and_ones 1 (x >>> 12), bit_or_disjoint 13 (2 ^ 32 - 2 ^ 13) x)

-- The same for the 20 bits of a U-type immediate.
pub sign_extend_20 : (x : ℕ) → x < 2 ^ 20 → sign_extend x 20 ≡ Insts.sign_extend 20 x
sign_extend_20 x h =
    ground (arith, bit_and_ones 1 (x >>> 19), bit_or_disjoint 20 (2 ^ 32 - 2 ^ 20) x)

-- Ones above bit 19, where those of `q` are already among them.
or_high :
    (q l : ℕ)
    → l < 2 ^ 20
    → bit_or 4095 q ≡ 4095
    → bit_or (2 ^ 32 - 2 ^ 20) (q * 2 ^ 20 + l) ≡ 2 ^ 32 - 2 ^ 20 + l
or_high q l h e =
    let low : bit_or 0 l ≡ l = omega (arith, bit_or_disjoint 20 0 l (omega arith) h) in
    let qe : (q * 2 ^ 20 + l) / 2 ^ 20 ≡ q = omega arith in
    let le : (q * 2 ^ 20 + l) % 2 ^ 20 ≡ l = omega arith in
    bit_or_split 20 (2 ^ 32 - 2 ^ 20) (q * 2 ^ 20 + l) ∙ rw (qe, le, e, low) refl

below_two : (q : ℕ) → q < 2 → bit_or 4095 q ≡ 4095
below_two zero h = refl
below_two (suc zero) h = refl
below_two (suc (suc q)) h = absurd (omega arith)

extend_low : (l : ℕ) → l < 2 ^ 19 → sign_extend l 20 ≡ l
extend_low l h = ground (arith, bit_and_ones 1 (l >>> 19))

extend_even : (l : ℕ) → l < 2 ^ 19 → sign_extend (2 ^ 20 + l) 20 ≡ 2 ^ 20 + l
extend_even l h = ground (arith, bit_and_ones 1 ((2 ^ 20 + l) >>> 19))

extend_high :
    (q l : ℕ)
    → l < 2 ^ 20
    → 2 ^ 19 ≤ l
    → bit_or 4095 q ≡ 4095
    → sign_extend (q * 2 ^ 20 + l) 20 ≡ 2 ^ 32 - 2 ^ 20 + l
extend_high q l h hi e = ground (arith, bit_and_ones 1 ((q * 2 ^ 20 + l) >>> 19), or_high q l h e)

twice_high :
    (q l : ℕ)
    → l < 2 ^ 20
    → 2 ^ 19 ≤ l
    → bit_or 4095 q ≡ 4095
    → sign_extend (sign_extend (q * 2 ^ 20 + l) 20) 20 ≡ 2 ^ 32 - 2 ^ 20 + l
twice_high q l h hi e =
    ap (λ y. sign_extend y 20) (extend_high q l h hi e) ∙ extend_high 4095 l h hi refl

-- What two extensions from bit 19 make of a 21-bit immediate.
abbrev Twice : ℕ → Type 0
Twice x =
    sign_extend (sign_extend x 20) 20
    ≡ (if x / 2 ^ 19 % 2 == 1 then 2 ^ 32 - 2 ^ 20 + x % 2 ^ 20 else x)

Twice-at : (q l : ℕ) → l < 2 ^ 20 → q < 2 → Twice (q * 2 ^ 20 + l)
Twice-at q l h hq = elim (dec_lt l (2 ^ 19)) [
  | yes low ↦ elim (dec_lt q 1) [
    | yes z ↦ ground (arith, extend_low (q * 2 ^ 20 + l) (omega arith))
    | no z ↦ ground (arith, extend_even l low)
  ]
  | no high ↦
      let e : bit_or 4095 q ≡ 4095 = below_two q hq in
      twice_high q l h (omega arith) e ∙ ground arith
]

Twice-intro : (x : ℕ) → x < 2 ^ 21 → Twice x
Twice-intro x h =
    let e : x / 2 ^ 20 * 2 ^ 20 + x % 2 ^ 20 ≡ x = omega arith in
    subst Twice e (Twice-at (x / 2 ^ 20) (x % 2 ^ 20) (omega arith) (omega arith))

-- For a 21-bit immediate, the two sign extensions from bit 19 that the pipeline applies to jal
-- give the sign extension from bit 20 exactly if the offset lies between -2 ^ 19 and 2 ^ 19 - 1.
pub sign_extend_jal :
    (x : ℕ)
    → x < 2 ^ 21
    → (sign_extend (sign_extend x 20) 20 ≡ Insts.sign_extend 21 x)
      ↔ ((x < 2 ^ 19) ⊎ (2 ^ 21 - 2 ^ 19 ≤ x))
sign_extend_jal x h = (λ e. ground (arith, Twice-intro x h), λ c. ground (arith, Twice-intro x h))
