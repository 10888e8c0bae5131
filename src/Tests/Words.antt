-- ===== src/Tests/Words.antt =====
-- Runs of the arithmetic, of the memory, of the registers and of the CSRs.
use rip_sim.Base.{
  ℕ, ◌+◌, ◌*◌, ◌^◌, ◌≡◌, ◌↔◌, arith, u32, signed32, to_word, ◌*ℤ◌, ◌==◌, if◌then◌else◌, ok, err,
  out_of_bounds, ◌>>=◌, IsOk, update,
}
use rip_sim.Insts.{div, rem, mul, mulh}
use rip_sim.Isa.{r_result}
use rip_sim.Isa.DivRem.{div-rem}
use rip_sim.Isa.Products.{mulh-mul}
use rip_sim.Memory
use rip_sim.Memory.{
  Memory, read_word, write_word, read_half_word, write_half_word, read_byte, write_byte,
}
use rip_sim.Memory.Bounds.{Fits, write_word-IsOk_iff, read_word_past_end}
use rip_sim.Memory.Words.{read_word-write_word}
use rip_sim.Csr
use rip_sim.Csr.{machine, user, get_mpp, get_mie, set_mpp, set_mie, set_mpie, set_mprev}

-- -7 by 2.
div-rem_example : u32 (r_result div 4294967289 2 * 2 + r_result rem 4294967289 2) ≡ 4294967289
div-rem_example = div-rem 4294967289 2 (omega arith) (omega arith)

mulh-mul_example :
    r_result mulh 0xdeadbeef 3 * 2 ^ 32 + r_result mul 0xdeadbeef 3
    ≡ to_word 64 (signed32 0xdeadbeef *ℤ signed32 3)
mulh-mul_example = mulh-mul 0xdeadbeef 3 (omega arith) (omega arith)

-- A DRAM of 64 bytes at 0x1000.
abbrev dram : Memory
dram = Memory.init 64 0x1000

read_word-write_word_example :
    (do m ← write_word dram 0x1004 0xdeadbeef; read_word m 0x1004) ≡ ok 0xdeadbeef
read_word-write_word_example =
    read_word-write_word dram 0x1004 0xdeadbeef (omega arith, omega arith) (omega arith)

-- Four bytes of code.
abbrev code_bytes : Memory
code_bytes = record dram { cells = λ i. if i == 0 then 0x13 else if i == 1 then 0x05 else 0 }

write_word-IsOk_iff_example : IsOk (write_word dram 0x103c 7) ↔ Fits dram 4 0x103c
write_word-IsOk_iff_example = write_word-IsOk_iff dram 0x103c 7

read_word_past_end_example : read_word dram 0x103e ≡ err out_of_bounds
read_word_past_end_example =
    read_word_past_end dram 0x103e (omega arith) (omega arith) (omega arith)

-- MSTATUS with MIE, MPIE and MPP set.
abbrev trapped_csrs : ℕ → ℕ
trapped_csrs = update Csr.init Csr.mstatus 0x1888
