-- ===== src/Tests/Ranges.antt =====
-- A run whose values stay in range, at a concrete input.
use rip_sim.Base.{◌≡◌, refl, arith, ok, true, none, [], ◌∷◌, update}
use rip_sim.Memory
use rip_sim.Registers
use rip_sim.Csr
use rip_sim.Decoder
use rip_sim.Insts
use rip_sim.Insts.{Instruction, addi, i_body}
use rip_sim.Isa
use rip_sim.Isa.Typed.{IsTyped}
use rip_sim.Stats
use rip_sim.Stats.{count_inst}
use rip_sim.Simulator
use rip_sim.Simulator.{Simulator}
use rip_sim.Simulator.Reached.{Reached, start, after, Reached-IsTyped}

-- `addi x5, x0, -1` at 0x1000, and nothing behind it.
abbrev loaded : Simulator
loaded = record {
  machine_state = record {
    pc = 0x1000;
    regs = Registers.init 64 0x1000 none;
    mem = record (Memory.init 64 0x1000) {
      cells = update (update (update (update (λ _. 0) 0 0x93) 1 0x02) 2 0xf0) 3 0xff;
    };
    csrs = Csr.init;
    mode = Csr.machine;
    console = [];
  };
  stats = Stats.init;
}

loaded_lem : Simulator.init (0xfff00293 ∷ []) 64 0x1000 none ≡ ok loaded
unfolding Simulator.init Simulator.load_binary Memory.write_word Registers.init
loaded_lem = refl

abbrev finished : Simulator
finished = record {
  machine_state = record (loaded.machine_state) {
    pc = 0x1004;
    regs = update (Registers.init 64 0x1000 none) 5 0xffffffff;
    csrs = update Csr.init 0xc00 1;
  };
  stats = count_inst (i_body addi 5 0 0xfff) Stats.init;
}

-- The object that the word decodes to.
abbrev minus_one : Instruction
minus_one = record { body = i_body addi 5 0 0xfff; val = 0xfff00293 }

finished-Reached : Reached loaded finished
unfolding Memory.read_word Decoder.decode Decoder.dispatch Decoder.decode_op_imm Insts.new_i
    Simulator.step Isa.exec Isa.i_exec Isa.i_step Isa.write_next Registers.read Registers.write
    Registers.init Csr.inc_cycle
finished-Reached = after {i = minus_one} {go_on = true} start refl refl refl

Reached-IsTyped_example : IsTyped finished.machine_state
Reached-IsTyped_example =
    Reached-IsTyped (0xfff00293 ∷ []) 64 0x1000 none loaded finished (omega arith) loaded_lem
      finished-Reached
