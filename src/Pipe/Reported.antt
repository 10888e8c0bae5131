-- ===== src/Pipe/Reported.antt =====
-- What `printJSON` of lib/RIPSimulator/PipelineStates.cpp reports of a stage.
use rip_sim.Base.{ℕ, zero, suc, ◌<◌, ◌≡◌, refl, sym, arith, false, Option, none, some}
use mathlib.Core.Path.{subst}
use rip_sim.Insts.{Instruction}
use rip_sim.Text.Chars.{codes, same, find}
use rip_sim.Pipe.{PipelineStates}
use rip_sim.Pipe.Json.{
  Entry, stage, print_json, stages_from, put, stage_name, stage_object, flag, text, unsigned,
  stage_values, Object,
}
use rip_sim.Print.Assembly.{mprint}

-- What is reported of a stage that holds this, or nothing.
abbrev pub Reported : PipelineStates → ℕ → Option Entry → Option Instruction → Type 0
Reported ps n e none = e ≡ none
Reported ps n e (some i) =
    (o : Object) × (e ≡ some (stage o))
    × (find o (codes "isBubble") ≡ some (flag false))
    × (find o (codes "InstStr") ≡ some (text (mprint i.body)))
    × (find o (codes "InstVal") ≡ some (unsigned i.val))
    × (find o (codes "PC") ≡ some (unsigned (ps.pcs n)))

abbrev stage_entry : ℕ → PipelineStates → Option Instruction → Option Entry
stage_entry n ps none = none
stage_entry n ps (some i) = some (stage (stage_object n ps i))

find-print_json :
    (ps : PipelineStates) (n : ℕ)
    → n < 5
    → find (print_json ps) (stage_name n) ≡ stage_entry n ps (ps.insts n)
unfolding find print_json stages_from put same
find-print_json ps zero h = ground arith
find-print_json ps (suc zero) h = ground arith
find-print_json ps (suc (suc zero)) h = ground arith
find-print_json ps (suc (suc (suc zero))) h = ground arith
find-print_json ps (suc (suc (suc (suc zero)))) h = ground arith
find-print_json ps (suc (suc (suc (suc (suc n))))) h = absurd (omega arith)

stage_entry-Reported :
    (ps : PipelineStates) (n : ℕ) (inst : Option Instruction)
    → n < 5
    → Reported ps n (stage_entry n ps inst) inst
unfolding find stage_object stage_values put same
stage_entry-Reported ps n none h = refl
stage_entry-Reported ps zero (some i) h = (stage_object 0 ps i, refl, refl, refl, refl, refl)
stage_entry-Reported ps (suc zero) (some i) h = (stage_object 1 ps i, refl, refl, refl, refl, refl)
stage_entry-Reported ps (suc (suc zero)) (some i) h =
    (stage_object 2 ps i, refl, refl, refl, refl, refl)
stage_entry-Reported ps (suc (suc (suc zero))) (some i) h =
    (stage_object 3 ps i, refl, refl, refl, refl, refl)
stage_entry-Reported ps (suc (suc (suc (suc zero)))) (some i) h =
    (stage_object 4 ps i, refl, refl, refl, refl, refl)
stage_entry-Reported ps (suc (suc (suc (suc (suc n))))) (some i) h = absurd (omega arith)

-- printJSON reports each of the five stages that holds an instruction, as no bubble and with the
-- text, the word and the PC of the instruction; a stage without an instruction is left out of the
-- object.
pub print_json-Reported :
    (ps : PipelineStates) (n : ℕ)
    → n < 5
    → Reported ps n (find (print_json ps) (stage_name n)) (ps.insts n)
print_json-Reported ps n h =
    subst (λ e. Reported ps n e (ps.insts n)) (sym (find-print_json ps n h))
      (stage_entry-Reported ps n (ps.insts n) h)
