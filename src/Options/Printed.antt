-- ===== src/Options/Printed.antt =====
-- Options written as arguments and parsed again.
use rip_sim.Base.{
  ℕ, ◌^◌, ◌<◌, Bool, true, false, List, [], ◌∷◌, ◌++◌, ◌≡◌, refl, ap, ◌∙◌, arith, Option, none,
  some, ok,
}
use rip_sim.Text.Chars.{Chars, codes}
use rip_sim.Text.Long.{show_long, stoll-show_long}
use rip_sim.Options.{
  Options, BranchPredKind, no_predictor, one, two, gshare, perceptron, interactive, init, parse_arg,
  parse_args, parse, is_option, is_empty,
}

abbrev kind_name : BranchPredKind → Chars
kind_name no_predictor = codes "no"
kind_name one = codes "onebit"
kind_name two = codes "twobit"
kind_name gshare = codes "gshare"
kind_name perceptron = codes "perceptron"
kind_name interactive = codes "interactive"

abbrev address_arg : Chars → Option ℕ → List Chars
address_arg name none = []
address_arg name (some a) = (name ++ show_long 16 a) ∷ []

abbrev flag_arg : Chars → Bool → List Chars
flag_arg name false = []
flag_arg name true = name ∷ []

-- The arguments that state all options, the file last, and their ends.
abbrev statistics_args : Options → List Chars
statistics_args o = flag_arg (codes "--stats") o.statistics ++ o.file_name ∷ []

abbrev flag_args : Options → List Chars
flag_args o = flag_arg (codes "-i") o.interactively ++ statistics_args o

abbrev end_args : Options → List Chars
end_args o = address_arg (codes "--end-address=0x") o.end_address ++ flag_args o

abbrev address_args : Options → List Chars
address_args o = address_arg (codes "--start-address=0x") o.start_address ++ end_args o

abbrev pub args_of : Options → List Chars
args_of o =
    (codes "-b=" ++ kind_name o.bp_kind)
    ∷ (codes "--dram-size=" ++ show_long 10 o.dram_size)
    ∷ address_args o

-- An address that `std::stoll` takes.
abbrev pub Fits : Option ℕ → Type 0
Fits none = Unit
Fits (some a) = a < 2 ^ 63

parse_kind :
    (k : BranchPredKind) (o : Options)
    → parse_arg (codes "-b=" ++ kind_name k) o ≡ ok (some (record o { bp_kind = k }))
unfolding parse_arg
parse_kind no_predictor o = refl
parse_kind _ o = refl

parse_dram :
    (n : ℕ) (o : Options)
    → n < 2 ^ 63
    → parse_arg (codes "--dram-size=" ++ show_long 10 n) o ≡ ok (some (record o { dram_size = n }))
unfolding parse_arg
parse_dram n o h = rw (stoll-show_long 10 n (omega arith) (omega arith) h (omega arith)) refl

parse_start :
    (n : ℕ) (o : Options)
    → n < 2 ^ 63
    → parse_arg (codes "--start-address=0x" ++ show_long 16 n) o
      ≡ ok (some (record o { start_address = some n }))
unfolding parse_arg
parse_start n o h = rw (stoll-show_long 16 n (omega arith) (omega arith) h (omega arith)) refl

parse_end :
    (n : ℕ) (o : Options)
    → n < 2 ^ 63
    → parse_arg (codes "--end-address=0x" ++ show_long 16 n) o
      ≡ ok (some (record o { end_address = some n }))
unfolding parse_arg
parse_end n o h = rw (stoll-show_long 16 n (omega arith) (omega arith) h (omega arith)) refl

parse_file :
    (f : Chars) (o : Options)
    → is_option f ≡ false
    → parse_arg f o ≡ ok (some (record o { file_name = f }))
unfolding parse_arg
parse_file f o h = rw h refl

-- One argument that is taken.
parse_step :
    (a : Chars) (args : List Chars) (o o' : Options)
    → parse_arg a o ≡ ok (some o')
    → parse_args (a ∷ args) o ≡ parse_args args o'
unfolding parse_args
parse_step a args o o' e = rw e refl

-- The arguments that may be left out, before others; `o` is what is parsed so far.
parse_starts :
    (a : Option ℕ) (args : List Chars) (o : Options)
    → Fits a
    → o.start_address ≡ none
    → parse_args (address_arg (codes "--start-address=0x") a ++ args) o
      ≡ parse_args args (record o { start_address = a })
parse_starts none args o h e = ap (λ a. parse_args args (record o { start_address = a })) e
parse_starts (some n) args o h e =
    parse_step _ args o (record o { start_address = some n }) (parse_start n o h)

parse_ends :
    (a : Option ℕ) (args : List Chars) (o : Options)
    → Fits a
    → o.end_address ≡ none
    → parse_args (address_arg (codes "--end-address=0x") a ++ args) o
      ≡ parse_args args (record o { end_address = a })
parse_ends none args o h e = ap (λ a. parse_args args (record o { end_address = a })) e
parse_ends (some n) args o h e =
    parse_step _ args o (record o { end_address = some n }) (parse_end n o h)

parse_interactively :
    (b : Bool) (args : List Chars) (o : Options)
    → o.interactively ≡ false
    → parse_args (flag_arg (codes "-i") b ++ args) o
      ≡ parse_args args (record o { interactively = b })
unfolding parse_arg parse_args
parse_interactively false args o e = ap (λ b. parse_args args (record o { interactively = b })) e
parse_interactively true args o e = refl

parse_statistics :
    (b : Bool) (args : List Chars) (o : Options)
    → o.statistics ≡ false
    → parse_args (flag_arg (codes "--stats") b ++ args) o
      ≡ parse_args args (record o { statistics = b })
unfolding parse_arg parse_args
parse_statistics false args o e = ap (λ b. parse_args args (record o { statistics = b })) e
parse_statistics true args o e = refl

parse_last :
    (f : Chars) (o : Options)
    → is_option f ≡ false
    → is_empty f ≡ false
    → parse_args (f ∷ []) o ≡ ok (true, record o { file_name = f })
unfolding parse_args
parse_last f o h h' = rw (parse_file f o h, h') refl

-- Options with a file name that is not empty and does not begin with a dash, and with a DRAM size
-- and addresses below 2 ^ 63, written as arguments, are parsed to the same options with success.
pub parse-args_of :
    (o : Options)
    → is_option o.file_name ≡ false
    → is_empty o.file_name ≡ false
    → o.dram_size < 2 ^ 63
    → Fits o.start_address
    → Fits o.end_address
    → parse (args_of o) init ≡ ok (true, o)
unfolding parse
parse-args_of o h h' hd hs he =
    let o1 = record init { bp_kind = o.bp_kind } in
    let o2 = record o1 { dram_size = o.dram_size } in
    let o3 = record o2 { start_address = o.start_address } in
    let o4 = record o3 { end_address = o.end_address } in
    let o5 = record o4 { interactively = o.interactively } in
    let dram = codes "--dram-size=" ++ show_long 10 o.dram_size in
    parse_step (codes "-b=" ++ kind_name o.bp_kind) (dram ∷ address_args o) init o1
      (parse_kind o.bp_kind init)
    ∙ parse_step dram (address_args o) o1 o2 (parse_dram o.dram_size o1 hd)
    ∙ parse_starts o.start_address (end_args o) o2 hs refl
    ∙ parse_ends o.end_address (flag_args o) o3 he refl
    ∙ parse_interactively o.interactively (statistics_args o) o4 refl
    ∙ parse_statistics o.statistics (o.file_name ∷ []) o5 refl
    ∙ parse_last o.file_name (record o5 { statistics = o.statistics }) h h'
