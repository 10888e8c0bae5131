-- ===== src/Units/Checks.antt =====
-- The tests of unittests hold of the model.
use rip_sim.Base.{◌≡◌, refl, ok, true, xor}
use rip_sim.Units.Runner.{all_pass, passes_rip, passes_sim, same_registers, same_csrs, expect}
use rip_sim.Memory
use rip_sim.Registers
use rip_sim.Csr
use rip_sim.Insts
use rip_sim.Decoder
use rip_sim.Pipe
use rip_sim.Predictor.TwoBit
use rip_sim.Predictor.Dispatch
use rip_sim.Predictor.OneBit
use rip_sim.Predictor.Gshare
use rip_sim.Predictor.Index
use rip_sim.Stats
use rip_sim.Rip.Alu
use rip_sim.Rip.Control
use rip_sim.Rip.Cycle
use rip_sim.Rip.Decode
use rip_sim.Rip.Exec
use rip_sim.Rip.MemoryAccess
use rip_sim.Rip.State
use rip_sim.Rip.Trap
use rip_sim.Rip.WriteBack
use rip_sim.Isa
use rip_sim.Simulator
use rip_sim.Units.Jumps
use rip_sim.Units.Loads
use rip_sim.Units.System
use rip_sim.Units.Arithmetic
use rip_sim.Units.Immediate
use rip_sim.Units.Same
use rip_sim.Units.Commands
use rip_sim.Units.Stages
use rip_sim.Units.Decoding
use rip_sim.Units.Emitting
use rip_sim.Units.Parsing
use rip_sim.Asm.Emitter
use rip_sim.Asm.Parser
use rip_sim.Registers.Names
use rip_sim.Text.Numbers
use rip_sim.Text.Chars

rip_pass :
    (all_pass passes_rip Jumps.all ≡ ok true)
    × (all_pass passes_rip Loads.all ≡ ok true)
    × (all_pass passes_rip System.all ≡ ok true)
    × (all_pass passes_rip Arithmetic.all ≡ ok true)
    × (all_pass passes_rip Immediate.all ≡ ok true)
unfolding all_pass passes_rip same_registers same_csrs expect Memory.write_byte Memory.read_byte
    Memory.write_half_word Memory.read_half_word Memory.write_word Memory.read_word Registers.init
    Registers.init_with Registers.write Registers.read Csr.write Csr.read Csr.set_mprev Csr.set_mie
    Csr.set_mpie Csr.set_mpp Csr.inc_cycle Csr.inc_bptp Csr.inc_bptn Csr.inc_bpfp Csr.inc_bpfn
    Insts.new_i Insts.new_r Insts.new_u Insts.new_j Insts.new_s Insts.new_b Insts.get_rd
    Insts.get_rs1 Insts.get_rs2 Insts.get_i_imm Insts.get_s_imm Insts.get_j_imm Insts.get_b_imm
    Insts.get_u_imm Decoder.decode_load Decoder.decode_extended Decoder.decode_fence
    Decoder.decode_op Decoder.decode_op_imm Decoder.decode_store Decoder.decode_branch
    Decoder.decode_system Decoder.dispatch Decoder.decode Pipe.clear_stall Pipe.proceed
    Pipe.proceed_pc Pipe.is_empty Pipe.fill_bubble TwoBit.learn TwoBit.predict Dispatch.learn_kind
    Dispatch.predict_kind Dispatch.stats_update OneBit.learn OneBit.predict Gshare.get_bht_index
    Gshare.learn Gshare.predict Index.get_lower_n_bits Index.clamp Index.learn_counter
    Index.is_taken Stats.increment_b_dist Stats.add_inst Stats.add_b_dist_and_reset Stats.count_inst
    Alu.r_value Alu.i_value Alu.csr_value Alu.u_value Control.jalr_jump Control.jal_jump
    Control.reads Control.load_stall Control.condition Control.count_branch Control.branch
    Control.mret Cycle.advance Cycle.work Cycle.redirect Cycle.count Cycle.finish_cycle
    Cycle.after_advance Cycle.round Cycle.proceed_n_stage Cycle.run_loop Cycle.run Cycle.load_binary
    Cycle.init Decode.writes_rd Decode.forward Decode.forward_csr Decode.operand Decode.predict
    Decode.decode Exec.after_value Exec.exec MemoryAccess.access MemoryAccess.memoryaccess
    State.writes_csr Trap.forwarded Trap.ex_val Trap.enter_trap Trap.trap_by_mode Trap.trap_by_kind
    Trap.handle_exception WriteBack.writeback
rip_pass = (refl, refl, refl, refl, refl)

sim_pass :
    (all_pass passes_sim Same.from_addi_to_slli ≡ ok true)
    × (all_pass passes_sim Same.from_srai_to_and ≡ ok true)
    × (all_pass passes_sim Same.from_xor_to_jalr ≡ ok true)
    × (all_pass passes_sim Same.from_beq_to_bltu ≡ ok true)
    × (all_pass passes_sim Same.from_bgeu_to_mulhsu ≡ ok true)
    × (all_pass passes_sim Same.from_mulhu_to_lui ≡ ok true)
    × (all_pass passes_sim Same.from_fence_as_nop_to_ecallmmode ≡ ok true)
    × (all_pass passes_sim Same.from_mret_to_mret ≡ ok true)
unfolding all_pass passes_sim same_registers same_csrs expect Memory.write_byte Memory.read_byte
    Memory.write_half_word Memory.read_half_word Memory.write_word Memory.read_word Registers.init
    Registers.init_with Registers.write Registers.read Csr.write Csr.read Csr.set_mprev Csr.set_mie
    Csr.set_mpie Csr.set_mpp Csr.inc_cycle Csr.inc_bptp Csr.inc_bptn Csr.inc_bpfp Csr.inc_bpfn
    Insts.new_i Insts.new_r Insts.new_u Insts.new_j Insts.new_s Insts.new_b Insts.get_rd
    Insts.get_rs1 Insts.get_rs2 Insts.get_i_imm Insts.get_s_imm Insts.get_j_imm Insts.get_b_imm
    Insts.get_u_imm Decoder.decode_load Decoder.decode_extended Decoder.decode_fence
    Decoder.decode_op Decoder.decode_op_imm Decoder.decode_store Decoder.decode_branch
    Decoder.decode_system Decoder.dispatch Decoder.decode Isa.write_next Isa.r_result Isa.r_exec
    Isa.i_step Isa.i_exec Isa.store Isa.condition Isa.u_exec Isa.s_effect Isa.s_exec Isa.b_exec
    Isa.j_exec Isa.exec Simulator.enter_trap Simulator.handle_exception Simulator.step Simulator.run
    Simulator.load_binary Simulator.init Stats.increment_b_dist Stats.add_inst
    Stats.add_b_dist_and_reset Stats.count_inst
sim_pass = (refl, refl, refl, refl, refl, refl, refl, refl)

stages_pass : Commands.all_pass Stages.all ≡ ok true
unfolding Commands.all_pass xor same_registers Memory.write_byte Memory.read_byte
    Memory.write_half_word Memory.read_half_word Memory.write_word Memory.read_word Registers.init
    Registers.init_with Registers.write Registers.read Csr.write Csr.read Csr.set_mprev Csr.set_mie
    Csr.set_mpie Csr.set_mpp Csr.inc_cycle Csr.inc_bptp Csr.inc_bptn Csr.inc_bpfp Csr.inc_bpfn
    Insts.new_i Insts.new_r Insts.new_u Insts.new_j Insts.new_s Insts.new_b Insts.get_rd
    Insts.get_rs1 Insts.get_rs2 Insts.get_i_imm Insts.get_s_imm Insts.get_j_imm Insts.get_b_imm
    Insts.get_u_imm Decoder.decode_load Decoder.decode_extended Decoder.decode_fence
    Decoder.decode_op Decoder.decode_op_imm Decoder.decode_store Decoder.decode_branch
    Decoder.decode_system Decoder.dispatch Decoder.decode Pipe.clear_stall Pipe.proceed
    Pipe.proceed_pc Pipe.is_empty Pipe.fill_bubble TwoBit.learn TwoBit.predict Dispatch.learn_kind
    Dispatch.predict_kind Dispatch.stats_update OneBit.learn OneBit.predict Gshare.get_bht_index
    Gshare.learn Gshare.predict Index.get_lower_n_bits Index.clamp Index.learn_counter
    Index.is_taken Stats.increment_b_dist Stats.add_inst Stats.add_b_dist_and_reset Stats.count_inst
    Alu.r_value Alu.i_value Alu.csr_value Alu.u_value Control.jalr_jump Control.jal_jump
    Control.reads Control.load_stall Control.condition Control.count_branch Control.branch
    Control.mret Cycle.advance Cycle.work Cycle.redirect Cycle.count Cycle.finish_cycle
    Cycle.after_advance Cycle.round Cycle.proceed_n_stage Cycle.run_loop Cycle.run Cycle.load_binary
    Cycle.init Decode.writes_rd Decode.forward Decode.forward_csr Decode.operand Decode.predict
    Decode.decode Exec.after_value Exec.exec MemoryAccess.access MemoryAccess.memoryaccess
    State.writes_csr Trap.forwarded Trap.ex_val Trap.enter_trap Trap.trap_by_mode Trap.trap_by_kind
    Trap.handle_exception WriteBack.writeback
stages_pass = refl

decoding_pass :
    (Decoding.all_pass Decoding.test_btype ≡ ok true)
    × (Decoding.all_pass Decoding.test_stype ≡ ok true)
    × (Decoding.all_pass Decoding.test_itype ≡ ok true)
    × (Decoding.all_pass Decoding.test_rtype ≡ ok true)
    × (Decoding.all_pass Decoding.test_utype ≡ ok true)
    × (Decoding.all_pass Decoding.test_ecall ≡ ok true)
    × (Decoding.all_pass Decoding.test_ebreak ≡ ok true)
    × (Decoding.all_pass Decoding.test_uret ≡ ok true)
    × (Decoding.all_pass Decoding.test_sret ≡ ok true)
    × (Decoding.all_pass Decoding.test_mret ≡ ok true)
    × (Decoding.all_pass Decoding.test_csrrci ≡ ok true)
    × (Decoding.all_pass Decoding.test_csrrsi ≡ ok true)
    × (Decoding.all_pass Decoding.test_csrrwi ≡ ok true)
    × (Decoding.all_pass Decoding.test_csrrc ≡ ok true)
    × (Decoding.all_pass Decoding.test_csrrs ≡ ok true)
    × (Decoding.all_pass Decoding.test_csrrw ≡ ok true)
unfolding Decoding.all_pass Decoding.passes Chars.same Insts.new_i Insts.new_r Insts.new_u
    Insts.new_j Insts.new_s Insts.new_b Insts.get_rd Insts.get_rs1 Insts.get_rs2 Insts.get_i_imm
    Insts.get_s_imm Insts.get_j_imm Insts.get_b_imm Insts.get_u_imm Decoder.decode_load
    Decoder.decode_extended Decoder.decode_fence Decoder.decode_op Decoder.decode_op_imm
    Decoder.decode_store Decoder.decode_branch Decoder.decode_system Decoder.dispatch Decoder.decode
decoding_pass =
    (refl, refl, refl, refl, refl, refl, refl, refl, refl, refl, refl, refl, refl, refl, refl, refl)

emitting_pass :
    (Emitting.passes Emitting.test_rv32i_itype ≡ true)
    × (Emitting.passes Emitting.test_rv32i_rtype ≡ true)
    × (Emitting.passes Emitting.test_rv32i_utype ≡ true)
    × (Emitting.passes Emitting.test_rv32i_jtype ≡ true)
    × (Emitting.passes Emitting.test_rv32i_stype ≡ true)
    × (Emitting.passes Emitting.test_rv32i_btype ≡ true)
unfolding Emitting.passes Emitter.emit_binary Names.reg_of_name Numbers.stoi Insts.new_i Insts.new_r
    Insts.new_u Insts.new_j Insts.new_s Insts.new_b
emitting_pass = (refl, refl, refl, refl, refl, refl)

parsing_pass :
    (Parsing.passes Parsing.test_basics ≡ true)
    × (Parsing.passes Parsing.test_labels ≡ true)
    × (Parsing.passes Parsing.test_loadstore ≡ true)
unfolding Parsing.passes Parser.init Parser.parse_line Chars.same Chars.find
parsing_pass = (refl, refl, refl)
