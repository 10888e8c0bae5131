-- ===== src/Exceptions.antt =====
-- include/Exceptions.h and lib/Exceptions.cpp.
use rip_sim.Base.{ℕ, Result, ok, err, assertion}

pub data Exception : Type 0 where
  instruction_address_misaligned : Exception
  instruction_access_fault : Exception
  illegal_instruction : Exception
  breakpoint : Exception
  load_address_misaligned : Exception
  load_access_fault : Exception
  store_amo_address_misaligned : Exception
  store_amo_access_fault : Exception
  environment_call_from_u_mode : Exception
  environment_call_from_s_mode : Exception
  r0 : Exception
  environment_call_from_m_mode : Exception
  instruction_page_fault : Exception
  load_page_fault : Exception
  r1 : Exception
  store_amo_page_fault : Exception

-- The number of an enumerator, as it is written to MCAUSE.
abbrev pub code : Exception → ℕ
code instruction_address_misaligned = 0
code instruction_access_fault = 1
code illegal_instruction = 2
code breakpoint = 3
code load_address_misaligned = 4
code load_access_fault = 5
code store_amo_address_misaligned = 6
code store_amo_access_fault = 7
code environment_call_from_u_mode = 8
code environment_call_from_s_mode = 9
code r0 = 10
code environment_call_from_m_mode = 11
code instruction_page_fault = 12
code load_page_fault = 13
code r1 = 14
code store_amo_page_fault = 15

-- The value for MTVAL. The page faults are not implemented.
abbrev pub trap_val : Exception → ℕ → ℕ → Result ℕ
trap_val illegal_instruction pc inst_val = ok inst_val
trap_val instruction_address_misaligned pc inst_val = ok pc
trap_val instruction_access_fault pc inst_val = ok pc
trap_val breakpoint pc inst_val = ok pc
trap_val load_address_misaligned pc inst_val = ok pc
trap_val load_access_fault pc inst_val = ok pc
trap_val store_amo_address_misaligned pc inst_val = ok pc
trap_val store_amo_access_fault pc inst_val = ok pc
trap_val instruction_page_fault pc inst_val = err assertion
trap_val load_page_fault pc inst_val = err assertion
trap_val store_amo_page_fault pc inst_val = err assertion
trap_val _ pc inst_val = ok 0
