-- ===== src/Options/Main.antt =====
-- `main` of tools/rip-sim/rip-sim.cpp.
use rip_sim.Base.{[], ℕ, ◌^◌, ℤ, Bool, true, false, List, Option, none, some, Result, ok, ◌>>=◌}
use rip_sim.Text.Chars.{Chars}
use rip_sim.Predictor.Dispatch
use rip_sim.Predictor.Dispatch.{BranchPredictor, one_bit, two_bit}
use rip_sim.Predictor.OneBit.{init_one_bit}
use rip_sim.Predictor.TwoBit.{init_two_bit}
use rip_sim.Predictor.Gshare.{init_gshare}
use rip_sim.Predictor.Perceptron.{init_perceptron}
use rip_sim.Simulator.Input.{file_words}
use rip_sim.Stats
use rip_sim.Stats.{Statistics}
use rip_sim.Rip.State.{Rip}
use rip_sim.Rip.Cycle
use rip_sim.Rip.Interactive.{Console, run_interactively}
use rip_sim.Options.{Options, BranchPredKind, no_predictor, one, two, interactive}
use rip_sim.Options

-- The predictor; the perceptron's `y` is not initialised. The interactive predictor, which asks
-- another process, is an argument.
unfoldable pub predictor_of : BranchPredictor → ℤ → BranchPredKind → Option BranchPredictor
predictor_of asking y no_predictor = none
predictor_of asking y one = some (Dispatch.init (one_bit init_one_bit))
predictor_of asking y two = some (Dispatch.init (two_bit init_two_bit))
predictor_of asking y BranchPredKind.gshare = some (Dispatch.init (Dispatch.gshare init_gshare))
predictor_of asking y BranchPredKind.perceptron =
    some (Dispatch.init (Dispatch.perceptron (init_perceptron y)))
predictor_of asking y interactive = some asking

abbrev stats_of : Bool → Option Statistics
stats_of true = some Stats.init
stats_of false = none

-- The end of the process: `return 1`, or what `run` or `runInteractively` leaves.
pub data Exit : Type 0 where
  refused : Exit
  finished : Option Rip → Exit
  interacted : Option (Rip × Console) → Exit

-- The file system is an argument too; a file that is not there is empty. `cin` are the words of the
-- standard input.
module _ (asking : BranchPredictor) (file : Chars → List ℕ) (cin : List Chars) where
  pub simulate : ℕ → ℤ → Options → Result Exit
  unfolding predictor_of
  simulate fuel y o = do
    s ←
        Cycle.init (file_words (file o.file_name)) (predictor_of asking y o.bp_kind) o.dram_size
          (stats_of o.statistics) 0 (some (2 ^ 25))
    elim o.interactively [
      | true ↦ (do
        let console : Console = record { cin = cin; cout = [] }
        r ← run_interactively fuel o.start_address o.end_address s console
        ok (interacted r))
      | false ↦ (do r ← Cycle.run fuel o.start_address o.end_address s; ok (finished r))
    ]

  pub main : ℕ → ℤ → List Chars → Result Exit
  unfolding simulate
  main fuel y args = do
    (good, o) ← Options.parse args Options.init
    elim good [ true ↦ simulate fuel y o | false ↦ ok refused ]
