-- ===== src/Tests/Options.antt =====
-- The options of tools/rip-sim/rip-sim.cpp and the digits of the debug output on concrete inputs.
use rip_sim.Base.{◌≡◌, refl, arith, ok, some, true}
use rip_sim.Text.Chars.{codes}
use rip_sim.Options.{Options, gshare, init, parse}
use rip_sim.Options.Printed.{args_of, parse-args_of}

abbrev options : Options
options = record init {
  file_name = codes "a.bin";
  bp_kind = gshare;
  statistics = true;
  dram_size = 1024;
  end_address = some 0x8000;
}

parse-args_of_example : parse (args_of options) init ≡ ok (true, options)
parse-args_of_example = parse-args_of options refl refl (omega arith) tt (omega arith)
