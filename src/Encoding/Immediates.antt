-- ===== src/Encoding/Immediates.antt =====
-- The scattered immediates that the getters of include/Instructions.h and lib/Decoder.cpp collect.
use rip_sim.Base.{
  ℕ, ◌+◌, ◌*◌, ◌/◌, ◌%◌, ◌^◌, ◌<◌, ◌≡◌, arith, bit_and, bit_or, bit_and_field, bit_and_ones, ◌∙◌,
  ◌<<<◌, ◌>>>◌, u32,
}
use rip_sim.Encoding.Sums.{or_field}

-- The S-, B- and J-type immediates as sums.
module _ (v : ℕ) where
  pub s_imm_sum :
      bit_or (bit_and v 0xfe000000 >>> 20) (bit_and (v >>> 7) 0x1f)
      ≡ v / 2 ^ 25 % 128 * 32 + v / 2 ^ 7 % 32
  s_imm_sum =
      or_field 5 (v / 2 ^ 25 % 128 * 32) (bit_and (v >>> 7) 0x1f)
        (omega (arith, bit_and_field 7 25 v)) (omega arith)
        (omega (arith, bit_and_ones 5 (v >>> 7)))
      ∙ omega (arith, bit_and_ones 5 (v >>> 7))

  pub b_imm_sum :
      v < 2 ^ 32
      → bit_or
          (bit_or
            (bit_or (bit_and v 0x80000000 >>> 19) (u32 (bit_and v 0x80 <<< 4)))
            (bit_and (v >>> 20) 0x7e0))
          (bit_and (v >>> 7) 0x1e)
        ≡ v / 2 ^ 31 * 2 ^ 12
          + v / 2 ^ 7 % 2 * 2 ^ 11
          + v / 2 ^ 25 % 64 * 2 ^ 5
          + v / 2 ^ 8 % 16 * 2
  b_imm_sum h =
      let m7 = bit_and_field 1 7 v in
      let m25 = bit_and_field 6 5 (v >>> 20) in
      let m8 = bit_and_field 4 1 (v >>> 7) in
      or_field 5 (v / 2 ^ 31 * 2 ^ 12 + v / 2 ^ 7 % 2 * 2 ^ 11 + v / 2 ^ 25 % 64 * 2 ^ 5)
        (bit_and (v >>> 7) 0x1e)
        (or_field 11 (v / 2 ^ 31 * 2 ^ 12 + v / 2 ^ 7 % 2 * 2 ^ 11) (bit_and (v >>> 20) 0x7e0)
            (or_field 12 (v / 2 ^ 31 * 2 ^ 12) (u32 (bit_and v 0x80 <<< 4))
                (omega (arith, bit_and_field 1 31 v)) (omega arith) (omega (arith, m7))
              ∙ omega (arith, m7))
            (omega arith) (omega (arith, m25))
          ∙ omega (arith, m25))
        (omega arith) (omega (arith, m8))
      ∙ omega (arith, m8)

  pub j_imm_sum :
      v < 2 ^ 32
      → bit_or
          (bit_or
            (bit_or (bit_and v 0x80000000 >>> 11) (bit_and v 0xff000))
            (bit_and (v >>> 9) 0x800))
          (bit_and (v >>> 20) 0x7fe)
        ≡ v / 2 ^ 31 * 2 ^ 20
          + v / 2 ^ 12 % 256 * 2 ^ 12
          + v / 2 ^ 20 % 2 * 2 ^ 11
          + v / 2 ^ 21 % 1024 * 2
  j_imm_sum h =
      let m12 = bit_and_field 8 12 v in
      let m20 = bit_and_field 1 11 (v >>> 9) in
      let m21 = bit_and_field 10 1 (v >>> 20) in
      or_field 11 (v / 2 ^ 31 * 2 ^ 20 + v / 2 ^ 12 % 256 * 2 ^ 12 + v / 2 ^ 20 % 2 * 2 ^ 11)
        (bit_and (v >>> 20) 0x7fe)
        (or_field 12 (v / 2 ^ 31 * 2 ^ 20 + v / 2 ^ 12 % 256 * 2 ^ 12) (bit_and (v >>> 9) 0x800)
            (or_field 20 (v / 2 ^ 31 * 2 ^ 20) (bit_and v 0xff000)
                (omega (arith, bit_and_field 1 31 v)) (omega arith) (omega (arith, m12))
              ∙ omega (arith, m12))
            (omega arith) (omega (arith, m20))
          ∙ omega (arith, m20))
        (omega arith) (omega (arith, m21))
      ∙ omega (arith, m21)
