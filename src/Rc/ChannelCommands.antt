-- ===== src/Rc/ChannelCommands.antt =====
-- The commands of class RC that select channels (client/hardware/rc/rc_interface.py): one channel at a
-- time, which keeps the others, or a list of channels. An exception is `none`.
use multi_daq.Prelude.{
  Bool, true, false, not, Option, none, some, ℕ, ◌^◌, if◌then◌else◌, ◌&&◌, ◌==◌, both,
}
use multi_daq.Prelude.Bits.{and_not}
use multi_daq.Prelude.Int.{pos}
use multi_daq.Rc.Registers.{Rc, check_channels_boundary, read, write, and_write}
use Prim.Native.Nat.{bit_and, bit_or}

-- The result for one channel; `flag` is `was_on` or `was_boot`, and false for `start_channel`, which
-- reports neither. A negative channel is refused like one that is too large, and is left out.
pub record ChannelReply : Type 0 where
  pub success : Bool
  pub channel : ℕ
  pub flag : Bool

abbrev pub answer : ℕ → Bool → Bool → ChannelReply
answer ch success flag = record { success = success; channel = ch; flag = flag }

-- `1 << channel`, and whether a register has it set.
abbrev pub mask_of : ℕ → ℕ
mask_of ch = 2 ^ ch

abbrev pub has_mask : ℕ → ℕ → Bool
has_mask mask reg = not (bit_and reg mask == 0)

-- `reset_channel`, with registers 0 and 1 read.
abbrev pub reset_from : ℕ → Option (ℕ × ℕ) → Rc → ChannelReply × Rc
reset_from ch none s = (answer ch false false, s)
reset_from ch (some (reg0, reg1)) s =
    if has_mask (mask_of ch) reg0 && has_mask (mask_of ch) reg1
    then (let w =
          and_write (write (pos 0) (pos (and_not reg0 (mask_of ch))) s) (pos 1)
            (pos (and_not reg1 (mask_of ch))) in
        (answer ch w.0 true, w.1))
    else (answer ch true false, s)

unfoldable pub reset_channel : ℕ → Rc → ChannelReply × Rc
unfolding read write
reset_channel ch s =
    if check_channels_boundary ch
    then reset_from ch (both (read (pos 0) s) (read (pos 1) s)) s
    else (answer ch false false, s)

-- `boot_channel`, with registers 0, 1 and 17 read; `&` on None raises.
abbrev pub boot_from : ℕ → Option (ℕ × (ℕ × ℕ)) → Rc → Option (ChannelReply × Rc)
boot_from ch none s = none
boot_from ch (some (reg0, (reg1, reg17))) s =
    let mask = mask_of ch in
    if has_mask mask reg0 && has_mask mask reg1 && has_mask mask reg17
    then some (answer ch true true, s)
    else (let w =
          and_write
            (and_write (write (pos 17) (pos (bit_or reg17 mask)) s) (pos 0)
              (pos (bit_or reg0 mask)))
            (pos 1) (pos (bit_or reg1 mask)) in
        some (answer ch w.0 w.0, w.1))

unfoldable pub boot_channel : ℕ → Rc → Option (ChannelReply × Rc)
unfolding read write
boot_channel ch s =
    if check_channels_boundary ch
    then boot_from ch (both (read (pos 0) s) (both (read (pos 1) s) (read (pos 17) s))) s
    else some (answer ch false false, s)

-- `start_channel`, with registers 0 and 1 read.
abbrev pub start_from : ℕ → Option (ℕ × ℕ) → Rc → Option (ChannelReply × Rc)
start_from ch none s = none
start_from ch (some (reg0, reg1)) s =
    let mask = mask_of ch in
    if has_mask mask reg0 && has_mask mask reg1
    then some (answer ch true false, s)
    else (let w =
          and_write (write (pos 1) (pos (bit_or reg1 mask)) s) (pos 0) (pos (bit_or reg0 mask)) in
        some (answer ch w.0 false, w.1))

unfoldable pub start_channel : ℕ → Rc → Option (ChannelReply × Rc)
unfolding read write
start_channel ch s =
    if check_channels_boundary ch
    then start_from ch (both (read (pos 0) s) (read (pos 1) s)) s
    else some (answer ch false false, s)

pub data ChannelCommand : Type 0 where
  reset boot start : ChannelCommand

-- The three methods.
unfoldable pub channel_command : ChannelCommand → ℕ → Rc → Option (ChannelReply × Rc)
unfolding reset_channel boot_channel start_channel
channel_command ChannelCommand.reset ch s = some (reset_channel ch s)
channel_command ChannelCommand.boot ch s = boot_channel ch s
channel_command ChannelCommand.start ch s = start_channel ch s
