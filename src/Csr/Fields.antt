-- ===== src/Csr/Fields.antt =====
-- The fields of MSTATUS in include/CSR.h: what the setters set, and what the getters read.
use rip_sim.Base.{
  ℕ, ◌+◌, ◌*◌, ◌/◌, ◌%◌, ◌^◌, ◌<◌, ◌≡◌, arith, Bool, true, ok, to_int, bit_and_ones, bit_and_hole,
  bit_or_fill, Result, ◌≢◌, ◌↔◌, update, ◌≤◌,
}
use rip_sim.Csr.{
  Csrs, ModeKind, user, epilogue, mode_code, mstatus, get_mie, get_mpp, set_mie, set_mpie, set_mpp,
  set_mprev,
}

-- The `k` bits of `v` from bit `s` on, and all its other bits.
abbrev pub field : ℕ → ℕ → ℕ → ℕ
field k s v = v / 2 ^ s % 2 ^ k

abbrev pub others : ℕ → ℕ → ℕ → ℕ
others k s v = v / 2 ^ s / 2 ^ k * 2 ^ k * 2 ^ s + v % 2 ^ s

-- A setter gives its field the value `f`, and changes no other bit and no other register.
pub record Sets (k s f : ℕ) (c : Csrs) (result : Result Csrs) : Type 0 where
  pub after : Csrs
  pub returns : result ≡ ok after
  pub is_set : field k s (after mstatus) ≡ f
  pub keeps : others k s (after mstatus) ≡ others k s (c mstatus)
  pub fits : after mstatus < 2 ^ 32
  pub frame : (j : ℕ) → j ≢ mstatus → after j ≡ c j

-- MSTATUS with the field at `s` replaced.
abbrev replaced : ℕ → ℕ → ℕ → Csrs → Csrs
replaced k s f c = update c mstatus (others k s (c mstatus) + f * 2 ^ s)

module _ (c : Csrs) (fits : c mstatus < 2 ^ 32) where
  pub set_mie-Sets : (b : Bool) → Sets 1 3 (to_int b) c (set_mie c b)
  unfolding set_mie
  set_mie-Sets b = record {
    after = replaced 1 3 (to_int b) c;
    returns = ground (
      arith,
      bit_and_hole 28 1 3 (c mstatus),
      bit_or_fill 1 3 (others 1 3 (c mstatus)) (to_int b),
    );
    is_set = ground arith;
    keeps = ground arith;
    fits = ground arith;
    frame = λ j ne. ground arith;
  }

  -- With MSTATUS a 32-bit value, setMPIE succeeds, sets bit 7, and changes no other bit and no
  -- other register.
  pub set_mpie-Sets : (b : Bool) → Sets 1 7 (to_int b) c (set_mpie c b)
  unfolding set_mpie
  set_mpie-Sets b = record {
    after = replaced 1 7 (to_int b) c;
    returns = ground (
      arith,
      bit_and_hole 24 1 7 (c mstatus),
      bit_or_fill 1 7 (others 1 7 (c mstatus)) (to_int b),
    );
    is_set = ground arith;
    keeps = ground arith;
    fits = ground arith;
    frame = λ j ne. ground arith;
  }

  pub set_mprev-Sets : (b : Bool) → Sets 1 17 (to_int b) c (set_mprev c b)
  unfolding set_mprev
  set_mprev-Sets b = record {
    after = replaced 1 17 (to_int b) c;
    returns = ground (
      arith,
      bit_and_hole 14 1 17 (c mstatus),
      bit_or_fill 1 17 (others 1 17 (c mstatus)) (to_int b),
    );
    is_set = ground arith;
    keeps = ground arith;
    fits = ground arith;
    frame = λ j ne. ground arith;
  }

  -- With MSTATUS a 32-bit value and a mode other than the epilogue, setMPP succeeds, sets bits 11
  -- and 12 to the mode, and changes no other bit and no other register.
  pub set_mpp-Sets : (m : ModeKind) → m ≢ epilogue → Sets 2 11 (mode_code m) c (set_mpp c m)
  unfolding set_mpp
  set_mpp-Sets m real = record {
    after = replaced 2 11 (mode_code m) c;
    returns = ground (
      arith,
      bit_and_hole 19 2 11 (c mstatus),
      bit_or_fill 2 11 (others 2 11 (c mstatus)) (mode_code m),
    );
    is_set = ground arith;
    keeps = ground arith;
    fits = ground arith;
    frame = λ j ne. ground arith;
  }

  -- With MSTATUS a 32-bit value, getMPP returns user mode whatever MPP is: it clears both bits
  -- before it shifts them down.
  pub get_mpp-eq-user : get_mpp c ≡ ok user
  unfolding get_mpp
  get_mpp-eq-user =
      ground
        (arith, bit_and_hole 19 2 11 (c mstatus), bit_and_ones 2 (others 2 11 (c mstatus) / 2048))

  -- With MSTATUS a 32-bit value, getMIE returns true exactly if MSTATUS is at least 16: it reads
  -- the bits above MIE, not MIE.
  pub get_mie_lem : (get_mie c ≡ ok true) ↔ (16 ≤ c mstatus)
  unfolding get_mie
  get_mie_lem = (
    λ e. ground (arith, bit_and_hole 28 1 3 (c mstatus)),
    λ e. ground (arith, bit_and_hole 28 1 3 (c mstatus)),
  )
