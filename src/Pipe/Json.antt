-- ===== src/Pipe/Json.antt =====
-- `printJSON` of lib/RIPSimulator/PipelineStates.cpp. A JSON object is the list of its keys and
-- values; nlohmann::json, which writes it as text, is left to the reader of the object.
use rip_sim.Base.{ℕ, zero, suc, ◌+◌, Bool, false, ◌==◌, if◌then◌else◌, List, [], ◌∷◌, none, some}
use rip_sim.Insts.{Instruction}
use rip_sim.Text.Chars.{Chars, codes, same}
use rip_sim.Stats.Names.{mnemo}
use rip_sim.Pipe.{PipelineStates, if_stage, de_stage, ex_stage, ma_stage, wb_stage}
use rip_sim.Print.Assembly.{mprint}

-- A `RegVal` is signed, and here its bit pattern.
pub data Value : Type 0 where
  flag : Bool → Value
  reg_val : ℕ → Value
  unsigned : ℕ → Value
  text : Chars → Value

-- `j[key] = value`.
unfoldable pub put {ℓ} : {V : Type ℓ} → Chars → V → List (Chars × V) → List (Chars × V)
unfolding same
put key v [] = (key, v) ∷ []
put key v ((k, w) ∷ m) = let rest = put key v m in if same k key then (k, v) ∷ m else (k, w) ∷ rest

abbrev pub Object : Type 0
Object = List (Chars × Value)

abbrev pub stage_name : ℕ → Chars
stage_name zero = codes "IF"
stage_name (suc zero) = codes "DE"
stage_name (suc (suc zero)) = codes "EX"
stage_name (suc (suc (suc zero))) = codes "MA"
stage_name _ = codes "WB"

-- The `switch`.
unfoldable pub stage_values : ℕ → PipelineStates → Object → Object
unfolding put
stage_values stage ps j =
    if stage == de_stage
    then put (codes "CSRVal") (reg_val ps.de_csr_val) (
        put (codes "ImmVal") (reg_val ps.de_imm_val) (
          put (codes "Rs2Val") (reg_val ps.de_rs2_val)
            (put (codes "Rs1Val") (reg_val ps.de_rs1_val) j)))
    else if stage == ex_stage
    then put (codes "CSRVal") (reg_val ps.ex_csr_val) (
        put (codes "ImmVal") (reg_val ps.ex_imm_val) (
          put (codes "Rs2Val") (reg_val ps.ex_rs2_val) (
            put (codes "RdVal") (reg_val ps.ex_rd_val)
              (put (codes "CSRVal") (reg_val ps.ex_csr_val) j))))
    else if stage == ma_stage
    then put (codes "CSRVal") (reg_val ps.ma_csr_val) (
        put (codes "ImmVal") (reg_val ps.ma_imm_val) (put (codes "RdVal") (reg_val ps.ma_rd_val) j))
    else if stage == wb_stage
    then put (codes "ImmVal") (reg_val ps.wb_imm_val) j
    else j

-- What a stage with an instruction reports.
unfoldable pub stage_object : ℕ → PipelineStates → Instruction → Object
unfolding stage_values put mprint mnemo
stage_object stage ps i = stage_values stage ps (
    put (codes "PC") (unsigned (ps.pcs stage)) (
      put (codes "mnemo") (text (codes (mnemo i.body))) (
        put (codes "InstVal") (unsigned i.val) (
          put (codes "InstStr") (text (mprint i.body)) (
            put (codes "isStall") (flag (ps.stalled_stages stage))
              (put (codes "isBubble") (flag false) []))))))

-- The value of a key of the whole object.
pub data Entry : Type 0 where
  kind : Chars → Entry
  stage : Object → Entry

-- A bubble goes on with the next stage before its object is stored.
unfoldable pub stages_from : ℕ → ℕ → PipelineStates → List (Chars × Entry) → List (Chars × Entry)
unfolding stage_object put
stages_from zero n ps j = j
stages_from (suc k) n ps j =
    stages_from k (n + 1) ps
      (elim (ps.insts n) [ none ↦ j | some i ↦ put (stage_name n) (stage (stage_object n ps i)) j ])

unfoldable pub print_json : PipelineStates → List (Chars × Entry)
unfolding stages_from
print_json ps = stages_from 5 if_stage ps ((codes "Kind", kind (codes "PipelineStates")) ∷ [])
