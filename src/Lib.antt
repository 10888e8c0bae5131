-- ===== src/Lib.antt =====
-- RiP-Sim is a simulator of RV32IM in C++. This library models its core and proves how it behaves.
--
-- The program. `Simulator` (lib/Simulator/Simulator.cpp) executes one instruction after another;
-- `RIPSimulator` (lib/RIPSimulator/RIPSimulator.cpp) moves instructions through five pipeline
-- stages, with forwarding, stalls and branch prediction. Both own a DRAM, a register file, CSRs and
-- a decoder. The decoder makes objects of six instruction classes; each object keeps its fields,
-- which `exec` of the class uses, and its word, which the getters of the base class read and the
-- pipeline uses.
--
-- Which file models which part:
--   Memory         include/Memory.h, lib/Memory.cpp: `write_word` is `writeWord`, and so on
--   Registers      include/Registers.h: `read` is `operator[]`
--   Csr            include/CSR.h, lib/CSR.cpp
--   Exceptions     include/Exceptions.h, lib/Exceptions.cpp
--   Insts          include/InstructionTypes.h (Kinds), the constructors from fields (Objects) and
--                  the getters (Getters) of include/Instructions.h
--   Encoding       lemmas: a word as the sum of its fields, and what the getters read of it
--   Decoder        lib/Decoder.cpp: `decode`, one function for each group of its switch
--   Isa            lib/Instructions.cpp: `exec`, one module for each group of classes
--   Simulator      lib/Simulator/Simulator.cpp: `step` is the body of the loop of `run`, and Reached
--                  the states of the loop, also of one that does not end
--   Predictor      include/RIPSimulator/BranchPredictor.h: one module for each predictor
--   Pipe           include/RIPSimulator/PipelineStates.h; Json is `printJSON` of
--                  lib/RIPSimulator/PipelineStates.cpp
--   Stats          include/Statistics.h, without the printing
--   Rip            lib/RIPSimulator/RIPSimulator.cpp: WriteBack, MemoryAccess, Exec (with Alu and
--                  Control) and Decode are the stages, Trap is `handleException`, Cycle is
--                  `proceedNStage` and `run`, Interactive is `runInteractively`. Proofs: Passing
--                  (what MA and WB do with an instruction), Forwarding, Hazard (a load and the
--                  instruction behind it), Single and its kin (one instruction of a class against
--                  `exec` of lib/Instructions.cpp), Branch, Start, Traps, Fuel and Transparent
--                  (the loops of `run` and `runInteractively`), and Flow (programs of
--                  arithmetic instructions, with several in the stages at once: Moves has what
--                  a cycle does to what they need of the state, Stages, Operands, Work and
--                  Rounds that the code does it, Retire what the registers will be, Drain the
--                  end, Run and Programs whole runs)
--   Asm            lib/Assembler, include/Assembler and the constructors from tokens of
--                  include/Instructions.h: `emit_binary` is `emitBinary` on a text
--   Print          `mprint` and `pprint` of include/Instructions.h, and lib/Debug.cpp
--   Options        tools/rip-sim/rip-sim.cpp: `parse`, and Main is its `main`
--   Tools          tools/asmkheiv/asmkheiv.cpp and tools/simkheiv/simkheiv.cpp: their `main`
--   Text           the strings, numbers and lines of the standard library that these use
--   Units          unittests: the programs and texts of the unit tests, and that they pass on the
--                  model (Checks). A test is its data, and Runner, Commands, Decoding, Emitting
--                  and Parsing have the bodies that the tests of a file share
--   Base           shared types and lemmas; Tests runs the theorems on concrete inputs
--
-- How the code is modelled. A value of 8, 16 or 32 bits is its bit pattern, a natural number; a
-- conversion to the 64-bit `Address` extends the sign where the source's type is signed. Signed
-- arithmetic that overflows wraps, as the source relies on. Objects that the source mutates are
-- records that a function takes and returns. A failing `assert`, an index outside a vector, a shift
-- by 32 or more and a use of a null instruction are faults of the type `Result`; a null object is
-- `none`. Maps and arrays are functions. Mnemonics, which are strings in the source, are data types,
-- one constructor for each table entry; Stats/Names has their strings and Asm/Kinds the lookups.
-- Characters that the simulators print for the MMIO address are kept in a list; messages to stderr
-- are left out.
--
-- A text is the list of its character codes; an input stream is the text or the lines that are
-- still to read, and an output stream the text that is written. `std::stoi` and `std::stoll` throw
-- where their documentation says so, and so does `std::bitset<5>` of a string; an exception of C++
-- that nothing catches is a fault.
--
-- Loops over stages, weights, words, tokens and arguments are structural. The loops of the two `run`
-- and of `runInteractively`, which need not end, take fuel and return `none` when it runs out. The
-- emitter's loop gets one round more than the text has lines, since each round reads a line.
-- `proceedNStage(N)` is structural in N, which is its own bound.
--
-- Not modelled: the drivers that run binaries (dhrystone, riscvtests and their rip- variants),
-- the unit test of the interactive predictor, the Python wrapper and the interactive predictor,
-- which asks it (an argument where `main` uses it), the text that the JSON library makes of an
-- object, the dumps of registers, CSRs and pipeline, printed statistics, the help text,
-- `CodeSize`, which is never read, and `FetchedInst`. Fields that a constructor leaves
-- uninitialised are 0, or an argument where they matter (`y` of the perceptron). The
-- perceptron's weights, biases and `y` are unbounded integers for the source's `int`, whose
-- overflow is undefined: the weights are clamped, and a bias changes by at most 1 with each
-- learned branch.
pub mod Base
pub mod Memory
pub mod Registers
pub mod Exceptions
pub mod Text
pub mod Csr
pub mod Insts
pub mod Asm
pub mod Print
pub mod Encoding
pub mod Decoder
pub mod Isa
pub mod Predictor
pub mod Pipe
pub mod Stats
pub mod Rip
pub mod Simulator
pub mod Options
pub mod Tools
pub mod Tests
pub mod Units
