-- ===== src/Csr.antt =====
-- include/CSR.h and lib/CSR.cpp: the control and status registers.
pub mod Fields
use rip_sim.Base.{
  ℕ, ◌+◌, ◌^◌, ◌<◌, bit_and, bit_or, Bool, not, ltb, ◌==◌, if◌then◌else◌, to_int, u32, add32, ◌<<<◌,
  ◌>>>◌, Result, ok, assertion, guard, ◌>>=◌, ◌>>◌, update,
}

pub data ModeKind : Type 0 where
  user supervisor hypervisor machine epilogue : ModeKind

-- The number of a mode, and the cast back of a two-bit number.
abbrev pub mode_code : ModeKind → ℕ
mode_code user = 0
mode_code supervisor = 1
mode_code hypervisor = 2
mode_code machine = 3
mode_code epilogue = 4

abbrev pub mode_of_code : ℕ → ModeKind
mode_of_code n =
    if n == 0 then user else if n == 1 then supervisor else if n == 2 then hypervisor else machine

abbrev pub csr_size : ℕ
csr_size = 4096

abbrev pub mstatus : ℕ
mstatus = 0x300

abbrev pub mtvec : ℕ
mtvec = 0x305

abbrev pub mepc : ℕ
mepc = 0x341

abbrev pub mcause : ℕ
mcause = 0x342

abbrev pub mtval : ℕ
mtval = 0x343

abbrev pub cycle : ℕ
cycle = 0xc00

abbrev pub bptp : ℕ
bptp = 0xfc0

abbrev pub bptn : ℕ
bptn = 0xfc1

abbrev pub bpfp : ℕ
bpfp = 0xfc2

abbrev pub bpfn : ℕ
bpfn = 0xfc3

-- `States[i]` for `i < 4096`.
abbrev pub Csrs : Type 0
Csrs = ℕ → ℕ

abbrev pub init : Csrs
init _ = 0

unfoldable pub write : Csrs → ℕ → ℕ → Result Csrs
write c ad val = do guard (ltb ad csr_size) assertion; ok (update c ad val)

unfoldable pub read : Csrs → ℕ → Result ℕ
read c ad = do guard (ltb ad csr_size) assertion; ok (c ad)

-- The conversion of an integer to `bool`.
abbrev to_bool : ℕ → Bool
to_bool n = not (n == 0)

pub get_mprev : Csrs → Result Bool
unfolding read
get_mprev c = do v ← read c mstatus; ok (to_bool (bit_and v 0xfffdffff >>> 17))

unfoldable pub set_mprev : Csrs → Bool → Result Csrs
unfolding read write
set_mprev c val = do
  v ← read c mstatus
  write c mstatus (bit_or (bit_and v 0xfffdffff) (to_int val <<< 17))

pub get_mie : Csrs → Result Bool
unfolding read
get_mie c = do v ← read c mstatus; ok (to_bool (bit_and v 0xfffffff7 >>> 3))

unfoldable pub set_mie : Csrs → Bool → Result Csrs
unfolding read write
set_mie c val = do
  v ← read c mstatus
  write c mstatus (bit_or (bit_and v 0xfffffff7) (to_int val <<< 3))

pub get_mpie : Csrs → Result Bool
unfolding read
get_mpie c = do v ← read c mstatus; ok (to_bool (bit_and v 0xffffff7f >>> 7))

unfoldable pub set_mpie : Csrs → Bool → Result Csrs
unfolding read write
set_mpie c val = do
  v ← read c mstatus
  write c mstatus (bit_or (bit_and v 0xffffff7f) (to_int val <<< 7))

pub get_mpp : Csrs → Result ModeKind
unfolding read
get_mpp c = do v ← read c mstatus; ok (mode_of_code (bit_and (bit_and v 0xffffe7ff >>> 11) 3))

unfoldable pub set_mpp : Csrs → ModeKind → Result Csrs
unfolding read write
set_mpp c val = do
  v ← read c mstatus
  write c mstatus (bit_or (bit_and v 0xffffe7ff) (mode_code val <<< 11))

-- Adds one to a counter. A signed overflow wraps.
increment : Csrs → ℕ → Result Csrs
unfolding read write
increment c ad = do v ← read c ad; write c ad (add32 v 1)

unfoldable pub inc_cycle : Csrs → Result Csrs
unfolding increment
inc_cycle c = increment c cycle

unfoldable pub inc_bptp : Csrs → Result Csrs
unfolding increment
inc_bptp c = increment c bptp

unfoldable pub inc_bptn : Csrs → Result Csrs
unfolding increment
inc_bptn c = increment c bptn

unfoldable pub inc_bpfp : Csrs → Result Csrs
unfolding increment
inc_bpfp c = increment c bpfp

unfoldable pub inc_bpfn : Csrs → Result Csrs
unfolding increment
inc_bpfn c = increment c bpfn
