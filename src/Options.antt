-- ===== src/Options.antt =====
-- tools/rip-sim/rip-sim.cpp: the options of the command line, and what is started with them.
pub mod Main
pub mod Printed
use rip_sim.Base.{
  ℕ, ◌+◌, ◌^◌, Bool, true, false, not, ◌||◌, ◌&&◌, List, [], ◌∷◌, ◌==◌, if◌then◌else◌, Option, none,
  some, Result, ok, ◌>>=◌,
}
use rip_sim.Text.Chars.{Chars, codes, same}
use rip_sim.Text.Long.{stoll}

pub data BranchPredKind : Type 0 where
  no_predictor one two gshare perceptron interactive : BranchPredKind

pub record Options : Type 0 where
  pub file_name : Chars
  pub bp_kind : BranchPredKind
  pub interactively : Bool
  pub statistics : Bool
  pub dram_size : ℕ
  pub start_address : Option ℕ
  pub end_address : Option ℕ

abbrev pub init : Options
init = record {
  file_name = [];
  bp_kind = no_predictor;
  interactively = false;
  statistics = false;
  dram_size = 2 ^ 28;
  start_address = none;
  end_address = none;
}

-- `BPKindFromStr` behind the test of `parse`; `none` for a text that the test refuses.
unfoldable pub bp_kind_from_str : Chars → Option BranchPredKind
unfolding same
bp_kind_from_str s =
    if same s (codes "no")
    then some no_predictor
    else if same s (codes "onebit")
    then some one
    else if same s (codes "twobit")
    then some two
    else if same s (codes "gshare")
    then some gshare
    else if same s (codes "perceptron")
    then some perceptron
    else if same s (codes "interactive")
    then some interactive
    else none

-- `arg.substr(0, n) == prefix` with the prefix of length n: what follows the prefix.
unfoldable pub strip : Chars → Chars → Option Chars
strip [] s = some s
strip (p ∷ ps) [] = none
strip (p ∷ ps) (c ∷ s) = let rest = strip ps s in if p == c then rest else none

-- The rest of the chain, once an option with a value is excluded.
abbrev pub set_flag : Chars → Options → Option Options
set_flag arg o = if same arg (codes "--stats") then some (record o { statistics = true }) else none

abbrev pub set_end : Option Chars → Chars → Options → Result (Option Options)
set_end none arg o = ok (set_flag arg o)
set_end (some v) arg o = do a ← stoll 16 v; ok (some (record o { end_address = some a }))

abbrev pub set_start : Option Chars → Chars → Options → Result (Option Options)
set_start none arg o = set_end (strip (codes "--end-address=0x") arg) arg o
set_start (some v) arg o = do a ← stoll 16 v; ok (some (record o { start_address = some a }))

abbrev pub set_dram : Option Chars → Chars → Options → Result (Option Options)
set_dram none arg o = set_start (strip (codes "--start-address=0x") arg) arg o
set_dram (some v) arg o = do a ← stoll 10 v; ok (some (record o { dram_size = a }))

abbrev pub with_kind : Option BranchPredKind → Options → Option Options
with_kind none o = none
with_kind (some k) o = some (record o { bp_kind = k })

abbrev pub set_kind : Option Chars → Chars → Options → Result (Option Options)
set_kind none arg o =
    if same arg (codes "-i")
    then ok (some (record o { interactively = true }))
    else set_dram (strip (codes "--dram-size=") arg) arg o
set_kind (some v) arg o = ok (with_kind (bp_kind_from_str v) o)

abbrev pub is_option : Chars → Bool
is_option [] = false
is_option (c ∷ s) = c == 45

-- One round of the loop; `none` is `return false`.
unfoldable pub parse_arg : Chars → Options → Result (Option Options)
unfolding same strip bp_kind_from_str
parse_arg arg o =
    if is_option arg
    then set_kind (strip (codes "-b=") arg) arg o
    else ok (some (record o { file_name = arg }))

abbrev pub is_empty : Chars → Bool
is_empty [] = true
is_empty (c ∷ s) = false

-- The loop, and the result at its end.
abbrev pub after_arg :
    (Options → Result (Bool × Options)) → Options → Option Options → Result (Bool × Options)
after_arg loop o none = ok (false, o)
after_arg loop o (some o') = loop o'

unfoldable pub parse_args : List Chars → Options → Result (Bool × Options)
unfolding parse_arg
parse_args [] o = ok (not (is_empty o.file_name), o)
parse_args (a ∷ args) o = parse_arg a o >>= after_arg (parse_args args) o

-- `parse`, on the arguments behind the program's name; without any it prints the help.
unfoldable pub parse : List Chars → Options → Result (Bool × Options)
unfolding parse_args
parse [] o = ok (false, o)
parse (a ∷ args) o = parse_args (a ∷ args) o
