-- ===== src/Tools/Chain.antt =====
-- A program from its listing to the simulator, through both tools.
use rip_sim.Base.{ℕ, ◌^◌, ◌≡◌, List, [], ◌∷◌, ◌++◌, some, none, ok, ◌>>=◌}
use rip_sim.Text.Chars.{Chars, codes}
use rip_sim.Insts.{Instruction}
use rip_sim.Simulator.{run}
use rip_sim.Simulator.Loading
use rip_sim.Print.Loaded.{Loaded}
use rip_sim.Tools.{Files, write_file, base_no_ext, asmkheiv, simkheiv, finished}

-- The file is assembled, and simkheiv runs what the assembler wrote.
pub record Runs (files : Files) (name : Chars) (is : List Instruction) : Type 0 where
  pub loaded : Loaded is (2 ^ 28) 0 (some (2 ^ 25))
  pub assembled :
      asmkheiv files (name ∷ []) ≡ some (ok (some (base_no_ext name ++ codes ".bin", loaded.bytes)))
  pub runs :
      (fuel : ℕ)
      → let out = base_no_ext name ++ codes ".bin" in
        simkheiv fuel (write_file out loaded.bytes files) (out ∷ [])
        ≡ (do r ← run fuel none loaded.started; ok (finished r))
