-- ===== src/Rc/Tests.antt =====
-- Tests of the model of class RC (client/hardware/rc/rc_interface.py), and the theorems at inputs.
use multi_daq.Prelude.{
  select, Bool, true, false, none, some, ℕ, ◌+◌, ◌<◌, List, [], ◌∷◌, ◌≡◌, refl, arith, is_empty,
  ◌&&◌,
}
use multi_daq.Prelude.Dict.{find}
use multi_daq.Prelude.Numbers.{has}
use multi_daq.Prelude.Bits.{test_bit}
use multi_daq.Prelude.Int.{pos, negsuc, int_of_literal, each}
use multi_daq.Channels.Definitions.{
  ChannelsArg, sequence, integer, channels_definition, listed_values, within,
}
use multi_daq.Message.Protocol.{Json, JsonMembers, no_members, member}
use multi_daq.Message.Handler.{dict_of}
use multi_daq.Rc.Registers.{Rc, Fits, max_regs, after}
use multi_daq.Rc.ChannelCommands.{ChannelCommand, channel_command}
use multi_daq.Rc.ListCommands.{MaskReply, ListCommand, list_command}
use multi_daq.Rc.Acquisition.{Name, address, raw, set_acq_registers}
use multi_daq.Rc.Monitoring.{TriggerConfig, decode_auto_trigger_config}
use multi_daq.Rc.Selection.{bit_after, selection_applied}
use multi_daq.Rc.SingleChannel.{succeeded, channel_bit_after, channel_applied}
use multi_daq.Rc.Bounds.{
  Call, set_register, boot_one, on_list, configure, run, registers_stay_32_bit,
}
use multi_daq.Rc.Applied.{Applied, acq-Applied}

-- Register `r` holds 200 + r.
abbrev board : Rc
board = record { mapped = true; regs = λ r. 200 + r }

abbrev two_and_five : ChannelsArg
two_and_five = sequence (integer (pos 2) ∷ integer (pos 5) ∷ [])

abbrev registers : JsonMembers
registers = member "0x10" (Json.integer (pos 7)) (
    member "19" (Json.integer (pos 3)) (
      member "20" (Json.integer (pos 1)) (
        member "trigger" (Json.integer (pos 1))
          (member "31" (Json.integer (pos 4294967296)) no_members))))

abbrev reg15 : JsonMembers
reg15 = member "mask" (Json.integer (pos 18)) (member "value" (Json.integer (pos 16)) no_members)

abbrev config : JsonMembers
config = member "registers" (Json.object registers) (member "reg15" (Json.object reg15) no_members)

abbrev flat : Rc
flat = record { mapped = true; regs = λ r. 215 }

flat-Fits : Fits flat
flat-Fits a = omega arith

configured : Bool × List ℕ × List Name × ℕ
unfolding set_acq_registers
configured =
    let q = set_acq_registers (Json.object config) flat in
    (q.0.success, q.0.successful_registers, q.0.failed_registers, q.1.regs 15)

configured_lem :
    configured
    ≡ (false, 16 ∷ 19 ∷ 15 ∷ [], address (pos 20) ∷ raw "trigger" ∷ address (pos 31) ∷ [], 213)
unfolding configured find is_empty int_of_literal
configured_lem = refl

decoded :
    (decode_auto_trigger_config 133 ≡ TriggerConfig.exact 133 (0 ∷ 2 ∷ []))
    × (decode_auto_trigger_config 21 ≡ TriggerConfig.majority 21 3)
unfolding decode_auto_trigger_config select
decoded = (refl, refl)

literals :
    (int_of_literal "0x1F" ≡ some (pos 31))
    × (int_of_literal " -0b1_0 " ≡ some (negsuc 1))
    × (int_of_literal "010" ≡ none)
    × (int_of_literal "0x" ≡ none)
    × (int_of_literal "00" ≡ some (pos 0))
unfolding int_of_literal
literals = (refl, refl, refl, refl, refl)

selection_applied_example :
    (q : MaskReply × Rc) × (list_command ListCommand.reset two_and_five flat ≡ some q)
    × (q.0.success ≡ true)
    × (q.0.done_channels ≡ 2 ∷ 5 ∷ [])
    × (test_bit 2 (q.1.regs 1)
        ≡ bit_after ListCommand.reset 1 (has 2 (2 ∷ 5 ∷ [])) (test_bit 2 (flat.regs 1)))
unfolding channels_definition listed_values each within is_empty
selection_applied_example =
    selection_applied ListCommand.reset two_and_five (2 ∷ 5 ∷ []) flat 2 1 refl refl refl flat-Fits

channel_applied_example :
    (succeeded (channel_command ChannelCommand.boot 3 flat) ≡ true)
    × (test_bit 3 ((after flat (channel_command ChannelCommand.boot 3 flat)).regs 17)
        ≡ channel_bit_after ChannelCommand.boot 17 true
            (test_bit 3 (flat.regs 0) && test_bit 3 (flat.regs 1))
            (test_bit 3 (flat.regs 17)))
channel_applied_example =
    channel_applied ChannelCommand.boot 3 flat 3 17 (omega arith) refl flat-Fits

abbrev calls : List Call
calls =
    set_register (pos 16) (pos 4294967296)
    ∷ boot_one 3
    ∷ on_list ListCommand.start two_and_five
    ∷ configure (Json.object config)
    ∷ []

registers_stay_32_bit_example :
    Fits (run flat calls) × ((a : ℕ) → max_regs < a → (run flat calls).regs a ≡ flat.regs a)
registers_stay_32_bit_example = registers_stay_32_bit calls flat flat-Fits

acq-Applied_example :
    Applied
      (dict_of registers)
      (some (dict_of reg15))
      flat
      (set_acq_registers (Json.object config) flat)
unfolding dict_of find
acq-Applied_example = acq-Applied config registers (some reg15) flat refl refl refl flat-Fits
