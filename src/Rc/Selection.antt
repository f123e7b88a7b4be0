-- ===== src/Rc/Selection.antt =====
-- What the commands on a list of channels do to the bits of the registers
-- (client/hardware/rc/rc_interface.py).
use multi_daq.Prelude.{
  Bool, true, false, not, some, ℕ, ◌^◌, ◌<◌, List, [], ◌∷◌, ◌≡◌, refl, arith, if◌then◌else◌, ◌&&◌,
  ◌||◌, ◌==◌, is_empty, Option-cases, inl, inr,
}
use multi_daq.Prelude.Numbers.{has}
use multi_daq.Prelude.Bits.{
  test_bit, test_bit-bit_or, test_bit-and_not, test_bit-power, test_bit-zero, bit_or_lt,
}
use multi_daq.Prelude.Int.{each}
use multi_daq.Channels.Definitions.{
  ChannelsArg, channels_definition, listed_values, within, range_from,
}
use multi_daq.Channels.Agreement.{all_below, each-within-all_below}
use multi_daq.Rc.Registers.{
  Rc, Fits, num_channels, check_reg_boundary, check_channels_boundary, read, write,
}
use multi_daq.Rc.ChannelCommands.{mask_of}
use multi_daq.Rc.ListCommands.{
  MaskReply, mask, build_mask, mask_reply, ListCommand, write_mask, list_command,
}
use Prim.Native.Nat.{bit_or}
use native.Mathlib.Nat.{pow-le-pow_right}

pub accepted-all_below :
    (a : ChannelsArg) (n : ℕ) (chs : List ℕ)
    → channels_definition a n false false ≡ some chs
    → all_below n chs ≡ true
unfolding channels_definition
accepted-all_below a n chs e = elim (Option-cases (listed_values (range_from 0 n) a)) [
  | inl h ↦ ground arith
  | inr (values, h) ↦ elim (Option-cases (each (within 0 n) values)) [
    | inl g ↦ ground arith
    | inr (vs, g) ↦ ground (arith, each-within-all_below n values vs g)
  ]
]

-- The mask of a list of channels, added to `m`.
channel_mask : ℕ → List ℕ → ℕ
channel_mask m [] = m
channel_mask m (ch ∷ chs) = channel_mask (bit_or m (mask_of ch)) chs

build_mask-all_below :
    (m : ℕ) (chs : List ℕ)
    → all_below num_channels chs ≡ true
    → build_mask m chs ≡ mask (channel_mask m chs)
unfolding all_below build_mask check_channels_boundary channel_mask
build_mask-all_below m [] b = refl
build_mask-all_below m (ch ∷ chs) b =
    ground (arith, build_mask-all_below (bit_or m (mask_of ch)) chs)

mask_of_lt : (ch : ℕ) → ch < 7 → mask_of ch < 2 ^ 7
mask_of_lt ch h =
    ground (arith, pow-le-pow_right {n = 2} (omega arith) {i = ch} {j = 6} (omega arith))

channel_mask_lt :
    (m : ℕ) (chs : List ℕ)
    → all_below num_channels chs ≡ true
    → m < 2 ^ 7
    → channel_mask m chs < 2 ^ 7
unfolding all_below channel_mask
channel_mask_lt m [] b h = h
channel_mask_lt m (ch ∷ chs) b h =
    channel_mask_lt (bit_or m (mask_of ch)) chs (ground arith)
      (bit_or_lt 7 m (mask_of ch) h (mask_of_lt ch (ground arith)))

test_bit-channel_mask :
    (i m : ℕ) (chs : List ℕ) → test_bit i (channel_mask m chs) ≡ (test_bit i m || has i chs)
unfolding channel_mask has
test_bit-channel_mask i m [] = ground arith
test_bit-channel_mask i m (ch ∷ chs) = ground (
  arith,
  test_bit-channel_mask i (bit_or m (mask_of ch)) chs,
  test_bit-bit_or i m (mask_of ch),
  test_bit-power i ch,
)

-- What a command makes of one bit of register `r`, for a channel that is selected or not.
abbrev pub bit_after : ListCommand → ℕ → Bool → Bool → Bool
bit_after ListCommand.reset r chosen before =
    if r == 0 || r == 1 then before && not chosen else before
bit_after ListCommand.boot r chosen before = if r == 0 || r == 1 || r == 17 then chosen else before
bit_after ListCommand.start r chosen before = if r == 0 || r == 1 || r == 39 then chosen else before

module _ (m : ℕ) (s : Rc) (chs : List ℕ) (i r : ℕ) where
  written :
      (k : ListCommand)
      → s.mapped ≡ true
      → Fits s
      → m < 2 ^ 7
      → test_bit i m ≡ has i chs
      → ((write_mask k chs m s).0 ≡ mask_reply true chs m)
        × (test_bit i ((write_mask k chs m s).1.regs r)
            ≡ bit_after k r (has i chs) (test_bit i (s.regs r)))
  unfolding write_mask read write check_reg_boundary
  written ListCommand.reset f w h b = (
    ground (arith, w 0, w 1),
    ground (arith, w 0, w 1, test_bit-and_not i (s.regs 0) m, test_bit-and_not i (s.regs 1) m),
  )
  written ListCommand.boot f w h b = (ground arith, ground arith)
  written ListCommand.start f w h b = (ground arith, ground arith)

-- A command that is given channels, on registers that can be written, answers that it worked on them,
-- and changes each bit as its method says: `reset` clears the channels in registers 0 and 1, `boot` and
-- `start` set exactly the channels in registers 0, 1 and 17, or 0, 1 and 39; no other bit changes.
pub selection_applied :
    (k : ListCommand) (a : ChannelsArg) (chs : List ℕ) (s : Rc) (i r : ℕ)
    → channels_definition a num_channels false false ≡ some chs
    → is_empty chs ≡ false
    → s.mapped ≡ true
    → Fits s
    → (q : MaskReply × Rc) × (list_command k a s ≡ some q)
      × (q.0.success ≡ true)
      × (q.0.done_channels ≡ chs)
      × (test_bit i (q.1.regs r) ≡ bit_after k r (has i chs) (test_bit i (s.regs r)))
unfolding list_command
selection_applied k a chs s i r e f w h =
    let b = accepted-all_below a num_channels chs e in
    let done =
      written (channel_mask 0 chs) s chs i r k w h (channel_mask_lt 0 chs b (omega arith))
        (ground (arith, test_bit-channel_mask i 0 chs, test_bit-zero i)) in
    (
      write_mask k chs (channel_mask 0 chs) s,
      ground (arith, e, f, build_mask-all_below 0 chs b),
      ground (arith, done.0),
      ground (arith, done.0),
      done.1,
    )
