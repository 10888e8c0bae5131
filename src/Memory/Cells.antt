-- ===== src/Memory/Cells.antt =====
-- Cells of lib/Memory.cpp stay bytes, and what is read has the width that is read.
use rip_sim.Base.{
  ℕ, ◌+◌, ◌^◌, ◌<◌, arith, Result, ◌>>=◌, ltb, Bool-cases, inl, inr, bit_and, bit_and_ones, AllOk,
  all_bind, any_ok, then_any, holds, fails, ◌>>>◌,
}
use rip_sim.Memory.{
  Memory, offset, load, store, read_byte, read_half_word, read_word, write_byte, write_half_word,
  write_word,
}

abbrev pub Bytes : Memory → Type 0
Bytes m = (j : ℕ) → m.cells j < 2 ^ 8

load-AllOk : (m : Memory) (i : ℕ) → Bytes m → AllOk (λ v. v < 2 ^ 8) (load m i)
unfolding load
load-AllOk m i b = elim (Bool-cases (ltb i m.size)) [
  | inl e ↦ rw e (holds (b i))
  | inr e ↦ rw e fails
]

store-AllOk : (m : Memory) (i v : ℕ) → Bytes m → AllOk Bytes (store m i (bit_and v 0xff))
unfolding store
store-AllOk m i v b = elim (Bool-cases (ltb i m.size)) [
  | inl e ↦ rw e (holds (λ j. let c = b j in ground (arith, bit_and_ones 8 v)))
  | inr e ↦ rw e fails
]

at_offset :
    {B : Type 0} {Q : B → Type 0} (m : Memory) (ad : ℕ) (f : ℕ → Result B)
    → ((i : ℕ) → AllOk Q (f i))
    → AllOk Q (offset m ad >>= f)
at_offset m ad f h = all_bind (offset m ad) f (any_ok (offset m ad)) (λ i u. h i)

pub read_byte-AllOk : (m : Memory) (ad : ℕ) → Bytes m → AllOk (λ v. v < 2 ^ 8) (read_byte m ad)
unfolding read_byte
read_byte-AllOk m ad b = at_offset m ad (load m) (λ i. load-AllOk m i b)

-- Reads that are cut to their width.
pub read_half_word-AllOk : (m : Memory) (ad : ℕ) → AllOk (λ v. v < 2 ^ 16) (read_half_word m ad)
unfolding read_half_word
read_half_word-AllOk m ad =
    at_offset m ad _
      (λ i. then_any (load m i) _ (λ a. then_any (load m (i + 1)) _ (λ b. holds (omega arith))))

pub read_word-AllOk : (m : Memory) (ad : ℕ) → AllOk (λ v. v < 2 ^ 32) (read_word m ad)
unfolding read_word
read_word-AllOk m ad = at_offset m ad _ (λ i. then_any (load m i) _ (λ a.
    then_any (load m (i + 1)) _ (λ b.
      then_any (load m (i + 2)) _ (λ c. then_any (load m (i + 3)) _ (λ d. holds (omega arith))))))

pub write_byte-AllOk : (m : Memory) (ad v : ℕ) → Bytes m → AllOk Bytes (write_byte m ad v)
unfolding write_byte
write_byte-AllOk m ad v b = at_offset m ad _ (λ i. store-AllOk m i v b)

pub write_half_word-AllOk : (m : Memory) (ad v : ℕ) → Bytes m → AllOk Bytes (write_half_word m ad v)
unfolding write_half_word
write_half_word-AllOk m ad v b = at_offset m ad _ (λ i.
    all_bind (store m i (bit_and v 0xff)) _ (store-AllOk m i v b)
      (λ m' b'. store-AllOk m' (i + 1) (v >>> 8) b'))

pub write_word-AllOk : (m : Memory) (ad v : ℕ) → Bytes m → AllOk Bytes (write_word m ad v)
unfolding write_word
write_word-AllOk m ad v b = at_offset m ad _ (λ i.
    all_bind (store m i (bit_and v 0xff)) _ (store-AllOk m i v b) (λ m1 b1.
      all_bind (store m1 (i + 1) (bit_and (v >>> 8) 0xff)) _ (store-AllOk m1 (i + 1) (v >>> 8) b1)
        (λ m2 b2.
          all_bind (store m2 (i + 2) (bit_and (v >>> 16) 0xff)) _
            (store-AllOk m2 (i + 2) (v >>> 16) b2)
            (λ m3 b3. store-AllOk m3 (i + 3) (v >>> 24) b3))))
