-- ===== src/Tools.antt =====
-- tools/asmkheiv/asmkheiv.cpp and tools/simkheiv/simkheiv.cpp.
pub mod Chain
use rip_sim.Base.{
  ℕ, ◌^◌, Bool, List, [], ◌∷◌, ◌++◌, ◌==◌, if◌then◌else◌, Option, none, some, Result, ok, err,
  ◌>>=◌,
}
use rip_sim.Text.Chars.{Chars, codes, same}
use rip_sim.Asm.Emitter.{emit_binary}
use rip_sim.Simulator.{Simulator, init, run}
use rip_sim.Simulator.Input.{file_words}

-- The bytes of the files, by name; a file that is not there is empty.
abbrev pub Files : Type 0
Files = Chars → List ℕ

unfoldable pub write_file : Chars → List ℕ → Files → Files
unfolding same
write_file name bytes files = λ n. if same n name then bytes else files n

-- `substr(0, find_last_of('.'))`: what stands before the last dot, all where there is none.
before_last_dot : Chars → Option Chars
before_last_dot [] = none
before_last_dot (c ∷ s) =
    let rest = before_last_dot s in
    elim rest [ some t ↦ some (c ∷ t) | none ↦ if c == 46 then some [] else none ]

abbrev or_all : Option Chars → Chars → Chars
or_all none s = s
or_all (some t) s = t

unfoldable pub base_no_ext : Chars → Chars
unfolding before_last_dot
base_no_ext s = or_all (before_last_dot s) s

-- `main` of asmkheiv: the file that it writes, and none where it returns 1. The outer `none` is the
-- end of the emitter's fuel. The input is not itself the file that is written.
abbrev written : Chars → Option (Result (List ℕ)) → Option (Result (Option (Chars × List ℕ)))
written out none = none
written out (some (ok bytes)) = some (ok (some (out, bytes)))
written out (some (err e)) = some (err e)

unfoldable pub asmkheiv : Files → List Chars → Option (Result (Option (Chars × List ℕ)))
asmkheiv files [] = some (ok none)
asmkheiv files (name ∷ args) = written (base_no_ext name ++ codes ".bin") (emit_binary (files name))

-- The end of simkheiv, without the dumps.
pub data Exit : Type 0 where
  refused : Exit
  finished : Option Simulator → Exit

unfoldable pub simkheiv : ℕ → Files → List Chars → Result Exit
simkheiv fuel files [] = ok refused
simkheiv fuel files (name ∷ args) = do
  s ← init (file_words (files name)) (2 ^ 28) 0 (some (2 ^ 25))
  r ← run fuel none s
  ok (finished r)
