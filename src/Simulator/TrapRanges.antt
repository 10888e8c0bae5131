-- ===== src/Simulator/TrapRanges.antt =====
-- The trap of lib/Simulator/Simulator.cpp keeps registers, CSRs, memory and PC in the range of their
-- types.
use rip_sim.Base.{
  ℕ, ◌<◌, arith, Bool-cases, inl, inr, u32, bit_and, bit_or, bit_and_le, bit_or_lt, bit_and_ones,
  ◌<<<◌, sar, AllOk, holds, fails, all_bind, ltb,
}
use rip_sim.Csr
use rip_sim.Csr.{
  Csrs, ModeKind, user, supervisor, hypervisor, machine, epilogue, mode_code, mstatus, mtvec, mepc,
  mcause, mtval,
}
use rip_sim.Exceptions.{Exception, illegal_instruction, r0, code, trap_val}
use rip_sim.Isa.{Machine}
use rip_sim.Isa.Words.{IsWord}
use rip_sim.Isa.MretRanges.{sext64-lt}
use rip_sim.Isa.Typed.{IsTyped, Words}
use rip_sim.Simulator.{enter_trap}

-- CSRs.
csr_read : (c : Csrs) (ca : ℕ) → Words c → AllOk IsWord (Csr.read c ca)
unfolding Csr.read
csr_read c ca words = elim (Bool-cases (ltb ca 4096)) [
  | inl e ↦ rw e (holds (words ca))
  | inr e ↦ rw e fails
]

csr_write : (c : Csrs) (ca v : ℕ) → Words c → IsWord v → AllOk Words (Csr.write c ca v)
unfolding Csr.write
csr_write c ca v words word = elim (Bool-cases (ltb ca 4096)) [
  | inl e ↦ rw e (holds (λ j. let w = words j in ground arith))
  | inr e ↦ rw e fails
]

code-IsWord : (e : Exception) → IsWord (code e)
code-IsWord r0 = omega arith
code-IsWord _ = omega arith

zero-IsWord : IsWord 0
zero-IsWord = omega arith

trap_val-AllOk : (e : Exception) (pc v : ℕ) → IsWord pc → IsWord v → AllOk IsWord (trap_val e pc v)
trap_val-AllOk illegal_instruction pc v hp hv = holds hv
trap_val-AllOk _ pc v hp hv = search (holds, fails, zero-IsWord)

mode_code-lt : (m : ModeKind) → mode_code m < 8
mode_code-lt user = omega arith
mode_code-lt _ = omega arith

-- A masked status with a field filled in.
filled-IsWord : (v mask f : ℕ) → IsWord v → IsWord f → IsWord (bit_or (bit_and v mask) f)
filled-IsWord v mask f w h = bit_or_lt 32 (bit_and v mask) f (omega (arith, bit_and_le v mask)) h

pub enter_trap-AllOk :
    (e : Exception) (inst_val : ℕ) (s : Machine)
    → IsWord inst_val
    → IsTyped s
    → AllOk IsTyped (enter_trap e inst_val s)
unfolding enter_trap
enter_trap-AllOk e inst_val s hv t =
    let pc = u32 s.pc in
    let at : IsWord (bit_and pc 0xfffffffe) = omega (arith, bit_and_le pc 0xfffffffe) in
    all_bind (Csr.read s.csrs mtvec) _ (csr_read s.csrs mtvec t.csrs) (λ vec w.
      let target : IsWord (bit_and vec 0xfffffffe) = omega (arith, bit_and_le vec 0xfffffffe) in
      all_bind (Csr.write s.csrs mepc _) _ (csr_write s.csrs mepc _ t.csrs at) (λ c1 w1.
        all_bind (Csr.write c1 mcause _) _ (csr_write c1 mcause _ w1 (code-IsWord e)) (λ c2 w2.
          all_bind (trap_val e pc inst_val) _ (trap_val-AllOk e pc inst_val (omega arith) hv)
            (λ tval wt.
              all_bind (Csr.write c2 mtval tval) _ (csr_write c2 mtval tval w2 wt) (λ c3 w3.
                all_bind (Csr.read c3 mstatus) _ (csr_read c3 mstatus w3) (λ v wv.
                  let mie = bit_and (sar 32 v 3) 1 in
                  let first : IsWord (mie <<< 7) = omega (arith, bit_and_ones 1 (sar 32 v 3)) in
                  let last : IsWord (mode_code s.mode <<< 11) =
                    omega (arith, mode_code-lt s.mode) in
                  all_bind (Csr.write c3 mstatus _) _
                    (csr_write c3 mstatus _ w3 (filled-IsWord v 0xffffff7f _ wv first))
                    (λ c4 w4.
                      all_bind (Csr.write c4 mstatus _) _
                        (csr_write c4 mstatus _ w4 (omega (arith, bit_and_le v 0xfffffff7)))
                        (λ c5 w5.
                          all_bind (Csr.write c5 mstatus _) _
                            (csr_write c5 mstatus _ w5 (filled-IsWord v 0xffffe7ff _ wv last))
                            (λ c6 w6. holds (record {
                              regs = t.regs;
                              csrs = w6;
                              mem = t.mem;
                              pc = sext64-lt _ target;
                            }))))))))))
