-- ===== src/Rip/Interactive.antt =====
-- `RIPSimulator::runInteractively`: a run that reports the stages after each cycle.
use rip_sim.Base.{
  ℕ, zero, suc, Bool, true, false, List, [], ◌∷◌, Option, none, some, Result, ok, ◌>>=◌,
}
use rip_sim.Text.Chars.{Chars}
use rip_sim.Pipe.Json.{Entry, print_json}
use rip_sim.Rip.State.{Rip}
use rip_sim.Rip.Cycle.{proceed_n_stage, reached}

-- `std::cin`, by words, and the objects that are printed to `std::cout`, the last one first.
pub record Console : Type 0 where
  pub cin : List Chars
  pub cout : List (List (Chars × Entry))

-- `std::cin >> buf`, whose result is not used; at the end of the input it reads nothing.
abbrev pub take_word : Console → Console
take_word c = record c { cin = elim c.cin [ [] ↦ [] | w ∷ ws ↦ ws ] }

abbrev pub print : Rip → Console → Console
print s c = record c { cout = print_json s.ps ∷ c.cout }

abbrev pub Interaction : Type 0
Interaction = Result (Option (Rip × Console))

-- Behind `proceedNStage`, with the loop itself as `loop`.
abbrev pub unless_reached : (Rip → Console → Interaction) → Bool → Rip → Console → Interaction
unless_reached loop true s c = ok (some (s, print s c))
unless_reached loop false s c = loop s (print s c)

abbrev pub unless_done :
    (Rip → Console → Interaction) → Option ℕ → Bool → Rip → Console → Interaction
unless_done loop end_address true s c = ok (some (s, print s c))
unless_done loop end_address false s c =
    unless_reached loop (reached end_address s.pc) s (take_word c)

-- On fuel; `none` means that the fuel ran out.
unfoldable pub interact : ℕ → Option ℕ → Rip → Console → Interaction
interact zero end_address s c = ok none
interact (suc fuel) end_address s c = do
  (done, s) ← proceed_n_stage 1 s
  unless_done (interact fuel end_address) end_address done s c

unfoldable pub run_interactively : ℕ → Option ℕ → Option ℕ → Rip → Console → Interaction
unfolding interact
run_interactively fuel none end_address s c = interact fuel end_address s c
run_interactively fuel (some start) end_address s c =
    interact fuel end_address (record s { pc = start }) c
