-- ===== src/Predictor/Counters.antt =====
-- The tables of include/RIPSimulator/BranchPredictor.h: what they hold and what is learned.
use rip_sim.Base.{
  ℕ, ◌+◌, ◌-◌, ◌<◌, ◌^◌, ◌≡◌, ◌≢◌, arith, Bool, true, false, Option, none, some, ℤ, pos, negsuc,
  ◌>>>◌, ◌==◌, if◌then◌else◌, update, Bool-cases, inl, inr,
}
use rip_sim.Predictor.Index.{learn_counter, is_taken, get_lower_n_bits, clamp}
use rip_sim.Predictor.OneBit
use rip_sim.Predictor.OneBit.{OneBit}
use rip_sim.Predictor.TwoBit
use rip_sim.Predictor.TwoBit.{TwoBit}
use rip_sim.Predictor.Gshare
use rip_sim.Predictor.Gshare.{Gshare}

-- The states of a two-bit counter, and an entry that holds one or is absent.
abbrev pub IsCounter : ℤ → Type 0
IsCounter (pos n) = n < 4
IsCounter (negsuc n) = ⊥

abbrev pub IsEntry : Option ℤ → Type 0
IsEntry none = Unit
IsEntry (some v) = IsCounter v

-- The counter saturates at both ends.
learn_counter-pos :
    (cond : Bool) (n : ℕ)
    → n < 4
    → learn_counter cond (some (pos n))
      ≡ pos (if cond then (if n == 3 then 3 else n + 1) else n - 1)
unfolding learn_counter clamp
learn_counter-pos true n h = ground arith
learn_counter-pos false n h = ground arith

learn_counter-IsCounter :
    (cond : Bool) (e : Option ℤ) → IsEntry e → IsCounter (learn_counter cond e)
unfolding learn_counter clamp
learn_counter-IsCounter true none h = omega arith
learn_counter-IsCounter false none h = omega arith
learn_counter-IsCounter true (some (pos n)) h = rw (learn_counter-pos true n h) (ground arith)
learn_counter-IsCounter false (some (pos n)) h = rw (learn_counter-pos false n h) (ground arith)
learn_counter-IsCounter c (some (negsuc n)) h = absurd h

-- Two equal outcomes decide what a counter predicts, whatever it was before.
learn_counter_twice :
    (cond : Bool) (v : ℤ)
    → IsCounter v
    → is_taken (some (learn_counter cond (some (learn_counter cond (some v))))) ≡ cond
unfolding learn_counter is_taken clamp
learn_counter_twice true (pos n) h = ground arith
learn_counter_twice false (pos n) h = ground arith
learn_counter_twice c (negsuc n) h = absurd h

-- Every entry of a table is absent or a two-bit counter.
abbrev pub IsTable : (ℕ → Option ℤ) → Type 0
IsTable t = (i : ℕ) → IsEntry (t i)

update-IsTable :
    (cond : Bool) (t : ℕ → Option ℤ) (i : ℕ)
    → IsTable t
    → IsTable (update t i (some (learn_counter cond (t i))))
update-IsTable cond t i h j = elim (Bool-cases (j == i)) [
  | inl e ↦ rw e (learn_counter-IsCounter cond (t i) (h i))
  | inr e ↦ rw e (h j)
]

-- After the one-bit predictor learns an outcome, it predicts that outcome at every address with
-- the same index, and predicts at all others what it did before.
pub predict-learn_one_bit :
    (cond : Bool) (pc other : ℕ) (p : OneBit)
    → OneBit.predict other (OneBit.learn cond pc p) ≡ (
        if get_lower_n_bits (other >>> 2) 5 == get_lower_n_bits (pc >>> 2) 5
        then cond
        else OneBit.predict other p)
unfolding OneBit.predict OneBit.learn
predict-learn_one_bit cond pc other p = ground arith

pub learn_two_bit-IsTable :
    (cond : Bool) (pc : ℕ) (p : TwoBit)
    → IsTable p.branch_history_table
    → IsTable (TwoBit.learn cond pc p).branch_history_table
unfolding TwoBit.learn
learn_two_bit-IsTable cond pc p h =
    update-IsTable cond p.branch_history_table (get_lower_n_bits (pc >>> 2) 10) h

-- If the gshare table holds only counters of 0 to 3, learning keeps it so, and the history it
-- leaves is below 2 ^ 10.
pub learn_gshare-IsTable :
    (cond : Bool) (pc : ℕ) (p : Gshare)
    → IsTable p.branch_history_table
    → IsTable (Gshare.learn cond pc p).branch_history_table
      × ((Gshare.learn cond pc p).branch_history < 2 ^ 10)
unfolding Gshare.learn Gshare.get_bht_index
learn_gshare-IsTable cond pc p h =
    (update-IsTable cond p.branch_history_table (Gshare.get_bht_index pc p) h, omega arith)

-- Where the two-bit table holds a counter of 0 to 3 for an address, two equal outcomes in a row
-- there make the outcome the prediction.
pub predict-learn_twice :
    (cond : Bool) (pc : ℕ) (p : TwoBit) (v : ℤ)
    → p.branch_history_table (get_lower_n_bits (pc >>> 2) 10) ≡ some v
    → IsCounter v
    → TwoBit.predict pc (TwoBit.learn cond pc (TwoBit.learn cond pc p)) ≡ cond
unfolding TwoBit.predict TwoBit.learn
predict-learn_twice cond pc p v e h = ground (arith, learn_counter_twice cond v h)

-- Learning at one index of the two-bit table leaves the predictions at the others.
pub predict-learn_other :
    (cond : Bool) (pc other : ℕ) (p : TwoBit)
    → get_lower_n_bits (other >>> 2) 10 ≢ get_lower_n_bits (pc >>> 2) 10
    → TwoBit.predict other (TwoBit.learn cond pc p) ≡ TwoBit.predict other p
unfolding TwoBit.predict TwoBit.learn
predict-learn_other cond pc other p ne = ground arith
