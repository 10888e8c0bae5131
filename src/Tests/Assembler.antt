-- ===== src/Tests/Assembler.antt =====
-- Programs through the assembler.
use rip_sim.Base.{◌≡◌, refl, arith, ok, some, none, [], ◌∷◌, List}
use rip_sim.Insts.{
  Instruction, new_r, new_i, new_u, new_j, new_b, b_body, add, addi, srai, lui, jal, beq, lw,
}
use rip_sim.Decoder.{decode}
use rip_sim.Stats.Names.{b_name}
use rip_sim.Text.Chars.{Chars, codes, All, same, find}
use rip_sim.Text.Numbers.{stoi}
use rip_sim.Text.Split.{pieces}
use rip_sim.Registers.Names.{reg_of_name}
use rip_sim.Asm.Operands.{parse_offset_reg}
use rip_sim.Asm.Emitter.{assemble, word_bytes, emit_binary}
use rip_sim.Asm.Parser.{has_colon, before_colon, parse_line_inner, scan_labels}
use rip_sim.Asm.Rounds.{emit_lines, emit_binary_lem}
use rip_sim.Asm.Addresses.{NotDefined, scan_labels-emit_lines}
use rip_sim.Asm.Branches.{assemble-branch}
use rip_sim.Asm.Offsets.{BaseZero, assemble-BaseZero}
use rip_sim.Print.Listing.{Listable, list_r, list_i, list_u, list_j, listing}
use rip_sim.Tools.{Files, write_file}
use rip_sim.Print.Loaded.{Loaded, listing-Loaded}

-- A line of the unit tests of the emitter.
slti_line : emit_binary (codes "slti x17, x16, -2\n") ≡ some (ok (0x93 ∷ 0x28 ∷ 0xe8 ∷ 0xff ∷ []))
unfolding emit_binary reg_of_name stoi new_i
slti_line = refl

abbrev jump : List Instruction
jump = new_j jal 1 0x1ffff8 ∷ []

abbrev upper : List Instruction
upper = new_u lui 7 0x80000 ∷ jump

abbrev sum : List Instruction
sum = new_r add 6 5 5 ∷ upper

abbrev shift : List Instruction
shift = new_i srai 7 5 3 ∷ sum

abbrev program : List Instruction
program = new_i addi 5 0 0xfff ∷ shift

jump-Listable : All Listable jump
jump-Listable = (list_j jal 1 0x1ffff8 (omega arith) (omega arith) (omega arith), tt)

upper-Listable : All Listable upper
upper-Listable = (list_u lui 7 0x80000 (omega arith) (omega arith), jump-Listable)

sum-Listable : All Listable sum
sum-Listable = (list_r add 6 5 5 (omega arith) (omega arith) (omega arith), upper-Listable)

shift-Listable : All Listable shift
shift-Listable = (list_i srai 7 5 3 (omega arith) (omega arith) (omega arith) tt, sum-Listable)

program-Listable : All Listable program
program-Listable =
    (list_i addi 5 0 0xfff (omega arith) (omega arith) (omega arith) tt, shift-Listable)

listing-Loaded_example : Loaded program 64 0x1000 none
listing-Loaded_example =
    listing-Loaded program 64 0x1000 none program-Listable (omega arith) (omega arith)

-- The file of the program, and no other.
abbrev files : Files
files = write_file (codes "p.s") (listing program) (λ n. [])

emit_binary_lem_example :
    emit_binary (codes "loop:\nadd x2, x3, x4\n")
    ≡ some (emit_lines (pieces 10 (codes "loop:\nadd x2, x3, x4\n")))
emit_binary_lem_example = emit_binary_lem (codes "loop:\nadd x2, x3, x4\n")

not_end : NotDefined (before_colon (codes "end:")) (codes "add x2, x3, x4" ∷ [])
unfolding before_colon same
not_end = (refl, tt)

emitted_line : emit_lines (codes "add x2, x3, x4" ∷ []) ≡ ok (0x33 ∷ 0x81 ∷ 0x41 ∷ 0 ∷ [])
unfolding emit_lines has_colon assemble reg_of_name new_r word_bytes parse_line_inner
emitted_line = refl

scan_labels-emit_lines_example :
    find
      (scan_labels (codes "add x2, x3, x4" ∷ codes "end:" ∷ codes "add x2, x3, x4" ∷ []) 0 [])
      (before_colon (codes "end:"))
    ≡ some 4
unfolding has_colon
scan_labels-emit_lines_example =
    scan_labels-emit_lines (codes "add x2, x3, x4" ∷ []) (codes "end:")
      (codes "add x2, x3, x4" ∷ []) (0x33 ∷ 0x81 ∷ 0x41 ∷ 0 ∷ []) refl not_end emitted_line

-- `beq x16, x17, 12`, with the immediate lost in the object.
assemble-branch_example :
    (i : Instruction) × (assemble (codes (b_name beq) ∷ codes "x16" ∷ codes "x17" ∷ codes "12" ∷ [])
      ≡ ok i)
    × (i.body ≡ b_body beq 16 17 0)
    × (decode i.val ≡ some (new_b beq 16 17 12))
unfolding reg_of_name stoi
assemble-branch_example =
    assemble-branch beq (codes "x16") (codes "x17") (codes "12") 16 17 12 refl refl refl
      (omega arith) (omega arith) (omega arith)

-- `lw x18, 4(x2)` loads from 4 + x0.
abbrev load_tokens : List Chars
load_tokens = codes "lw" ∷ codes "x18" ∷ codes "4(x2)" ∷ []

load_object : assemble load_tokens ≡ ok (new_i lw 18 0 4)
unfolding assemble reg_of_name stoi parse_offset_reg new_i
load_object = refl

assemble-BaseZero_example : BaseZero (new_i lw 18 0 4).body
assemble-BaseZero_example = assemble-BaseZero load_tokens (new_i lw 18 0 4) refl load_object
