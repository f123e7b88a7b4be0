-- ===== src/Rc/ListCommands.antt =====
-- The commands of class RC on a list of channels, and those for the flashing of a front-end board
-- (client/hardware/rc/rc_interface.py). An exception is `none`.
use multi_daq.Prelude.{
  Bool, true, false, Option, none, some, map_option, ℕ, List, [], ◌∷◌, if◌then◌else◌, is_empty,
  both,
}
use multi_daq.Prelude.Bits.{and_not}
use multi_daq.Prelude.Int.{pos}
use multi_daq.Channels.Definitions.{ChannelsArg, channels_definition}
use multi_daq.Rc.Registers.{Rc, num_channels, check_channels_boundary, read, write, also_write}
use multi_daq.Rc.ChannelCommands.{mask_of}
use Prim.Native.Nat.{bit_or}

-- `reset_channels`, `boot_channels` or `started_channels` is `done_channels` here.
pub record MaskReply : Type 0 where
  pub success : Bool
  pub done_channels : List ℕ
  pub failed_channels : List ℕ
  pub register_mask : Option ℕ

-- The loop that builds the mask: the first channel out of bounds ends it.
pub data MaskLoop : Type 0 where
  invalid : ℕ → MaskLoop
  mask : ℕ → MaskLoop

unfoldable pub build_mask : ℕ → List ℕ → MaskLoop
build_mask m [] = mask m
build_mask m (ch ∷ chs) =
    let rest = build_mask (bit_or m (mask_of ch)) chs in
    if check_channels_boundary ch then rest else invalid ch

abbrev refused : List ℕ → Option ℕ → MaskReply
refused chs m = record {
  success = false;
  done_channels = [];
  failed_channels = chs;
  register_mask = m;
}

abbrev pub mask_reply : Bool → List ℕ → ℕ → MaskReply
mask_reply true chs m = record {
  success = true;
  done_channels = chs;
  failed_channels = [];
  register_mask = some m;
}
mask_reply false chs m = refused chs (some m)

abbrev pub reply_of : List ℕ → ℕ → Bool × Rc → MaskReply × Rc
reply_of chs m w = (mask_reply w.0 chs m, w.1)

pub data ListCommand : Type 0 where
  reset boot start : ListCommand

-- What `reset` writes, with registers 0 and 1 read.
abbrev pub reset_registers : List ℕ → ℕ → Option (ℕ × ℕ) → Rc → MaskReply × Rc
reset_registers chs m none s = (refused chs (some m), s)
reset_registers chs m (some (reg0, reg1)) s =
    reply_of chs m
      (also_write (write (pos 0) (pos (and_not reg0 m)) s) (pos 1) (pos (and_not reg1 m)))

unfoldable pub write_mask : ListCommand → List ℕ → ℕ → Rc → MaskReply × Rc
unfolding read write
write_mask ListCommand.reset chs m s =
    reset_registers chs m (both (read (pos 0) s) (read (pos 1) s)) s
write_mask ListCommand.boot chs m s =
    reply_of chs m
      (also_write (also_write (write (pos 17) (pos m) s) (pos 0) (pos m)) (pos 1) (pos m))
write_mask ListCommand.start chs m s =
    reply_of chs m
      (also_write (also_write (write (pos 1) (pos m) s) (pos 0) (pos m)) (pos 39) (pos m))

abbrev pub masked : ListCommand → List ℕ → MaskLoop → Rc → MaskReply × Rc
masked k chs (invalid ch) s = (refused (ch ∷ []) none, s)
masked k chs (mask m) s = write_mask k chs m s

abbrev pub on_channels : ListCommand → List ℕ → Rc → MaskReply × Rc
on_channels k chs s =
    if is_empty chs then (refused [] none, s) else masked k chs (build_mask 0 chs) s

-- `reset`, `boot` and `start`.
unfoldable pub list_command : ListCommand → ChannelsArg → Rc → Option (MaskReply × Rc)
unfolding write_mask build_mask
list_command k channels s =
    map_option (λ chs. on_channels k chs s) (channels_definition channels num_channels false false)

-- `feb_reset_after_flash`
unfoldable pub feb_reset_after_flash : Rc → Bool × Rc
unfolding write
feb_reset_after_flash s =
    also_write (also_write (write (pos 1) (pos 0) s) (pos 0) (pos 0)) (pos 17) (pos 0)

abbrev selected : ℕ → Bool × Rc → MaskReply × Rc
selected ch w = (mask_reply w.0 (ch ∷ []) (mask_of ch), w.1)

abbrev pub select_one : List ℕ → Rc → MaskReply × Rc
select_one (ch ∷ []) s =
    if check_channels_boundary ch
    then selected ch (write (pos 1) (pos (mask_of ch)) s)
    else (refused (ch ∷ []) (some 0), s)
select_one chs s = (refused chs (some 0), s)

-- `feb_select_for_address_change`
unfoldable pub feb_select_for_address_change : ChannelsArg → Rc → Option (MaskReply × Rc)
unfolding write
feb_select_for_address_change channels s =
    map_option (λ chs. select_one chs s) (channels_definition channels num_channels false false)
