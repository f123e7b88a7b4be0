-- ===== src/Rc/SingleChannel.antt =====
-- What the commands on one channel do to the bits of the registers
-- (client/hardware/rc/rc_interface.py).
use multi_daq.Prelude.{
  Bool, true, false, not, Option, none, some, ℕ, ◌^◌, ◌≤◌, ◌<◌, ◌≡◌, sym, arith, ==_iff,
  if◌then◌else◌, ◌&&◌, ◌||◌, ◌==◌, Bool-cases, inl, inr,
}
use multi_daq.Prelude.Bits.{
  test_bit, and_not, test_bit-bit_or, test_bit-and_not, test_bit-power, bit_or_lt, bit_and-power,
}
use multi_daq.Rc.Registers.{
  Rc, Fits, num_channels, max_register_value, check_channels_boundary, check_reg_boundary, read,
  write, after,
}
use multi_daq.Rc.ChannelCommands.{
  ChannelReply, mask_of, reset_channel, boot_channel, start_channel, ChannelCommand,
  channel_command,
}
use mathlib.Core.Path.{subst}
use Prim.Native.Nat.{bit_or}
use native.Mathlib.Nat.{pow-le-pow_right}

-- A bit of register `r` after a command; `chosen` says whether it is the bit of the channel, `on`
-- whether the channel was set in registers 0 and 1.
abbrev pub channel_bit_after : ChannelCommand → ℕ → Bool → Bool → Bool → Bool
channel_bit_after ChannelCommand.reset r chosen on before =
    if (r == 0 || r == 1) && on then before && not chosen else before
channel_bit_after ChannelCommand.boot r chosen on before =
    if r == 0 || r == 1 || r == 17 then before || chosen else before
channel_bit_after ChannelCommand.start r chosen on before =
    if r == 0 || r == 1 then before || chosen else before

fits-bit_or :
    (ch v : ℕ) → ch < 7 → v ≤ max_register_value → bit_or v (mask_of ch) ≤ max_register_value
fits-bit_or ch v h w = omega (arith, bit_or_lt 32 v (mask_of ch) (omega arith) (mask_lt h))
  where
    mask_lt : ch < 7 → mask_of ch < 2 ^ 32
    mask_lt h =
        ground (arith, pow-le-pow_right {n = 2} (omega arith) {i = ch} {j = 6} (omega arith))

test_bit-set : (i ch v : ℕ) → test_bit i (bit_or v (mask_of ch)) ≡ (test_bit i v || i == ch)
test_bit-set i ch v = ground (arith, test_bit-bit_or i v (mask_of ch), test_bit-power i ch)

test_bit-clear :
    (i ch v : ℕ) → test_bit i (and_not v (mask_of ch)) ≡ (test_bit i v && not (i == ch))
test_bit-clear i ch v = ground (arith, test_bit-and_not i v (mask_of ch), test_bit-power i ch)

-- A bit that is set already.
test_bit-kept : (i ch v : ℕ) → test_bit ch v ≡ true → test_bit i v ≡ (test_bit i v || i == ch)
test_bit-kept i ch v h = elim (Bool-cases (i == ch)) [
  | inl e ↦ ground (arith, e, subst (λ c. test_bit c v ≡ true) (sym ((==_iff i ch).0 e)) h)
  | inr e ↦ ground arith
]

-- A call that does not raise and reports success.
abbrev pub succeeded : Option (ChannelReply × Rc) → Bool
succeeded none = false
succeeded (some q) = q.0.success

module _ (ch : ℕ) (s : Rc) (i r : ℕ) (h : ch < 7) (f : s.mapped ≡ true) (w : Fits s) where
  -- Whether the channel is set in registers 0 and 1.
  on : Bool
  on = test_bit ch (s.regs 0) && test_bit ch (s.regs 1)

  reset_done :
      ((reset_channel ch s).0.success ≡ true)
      × (test_bit i ((reset_channel ch s).1.regs r)
          ≡ channel_bit_after ChannelCommand.reset r (i == ch) on (test_bit i (s.regs r)))
  unfolding reset_channel check_channels_boundary read write check_reg_boundary on
  reset_done = (
    ground (arith, w 0, w 1),
    ground (
      arith,
      w 0,
      w 1,
      bit_and-power ch (s.regs 0),
      bit_and-power ch (s.regs 1),
      test_bit-clear i ch (s.regs 0),
      test_bit-clear i ch (s.regs 1),
    ),
  )

  boot_done :
      (succeeded (boot_channel ch s) ≡ true)
      × (test_bit i ((after s (boot_channel ch s)).regs r)
          ≡ channel_bit_after ChannelCommand.boot r (i == ch) on (test_bit i (s.regs r)))
  unfolding boot_channel check_channels_boundary read write check_reg_boundary on
  boot_done = (
    ground (
      arith,
      fits-bit_or ch (s.regs 0) h (w 0),
      fits-bit_or ch (s.regs 1) h (w 1),
      fits-bit_or ch (s.regs 17) h (w 17),
    ),
    ground (
      arith,
      fits-bit_or ch (s.regs 0) h (w 0),
      fits-bit_or ch (s.regs 1) h (w 1),
      fits-bit_or ch (s.regs 17) h (w 17),
      bit_and-power ch (s.regs 0),
      bit_and-power ch (s.regs 1),
      bit_and-power ch (s.regs 17),
      test_bit-set i ch (s.regs 0),
      test_bit-set i ch (s.regs 1),
      test_bit-set i ch (s.regs 17),
      test_bit-kept i ch (s.regs 0),
      test_bit-kept i ch (s.regs 1),
      test_bit-kept i ch (s.regs 17),
    ),
  )

  start_done :
      (succeeded (start_channel ch s) ≡ true)
      × (test_bit i ((after s (start_channel ch s)).regs r)
          ≡ channel_bit_after ChannelCommand.start r (i == ch) on (test_bit i (s.regs r)))
  unfolding start_channel check_channels_boundary read write check_reg_boundary on
  start_done = (
    ground (arith, fits-bit_or ch (s.regs 0) h (w 0), fits-bit_or ch (s.regs 1) h (w 1)),
    ground (
      arith,
      fits-bit_or ch (s.regs 0) h (w 0),
      fits-bit_or ch (s.regs 1) h (w 1),
      bit_and-power ch (s.regs 0),
      bit_and-power ch (s.regs 1),
      test_bit-set i ch (s.regs 0),
      test_bit-set i ch (s.regs 1),
      test_bit-kept i ch (s.regs 0),
      test_bit-kept i ch (s.regs 1),
    ),
  )

-- On registers that can be written, a command on one channel succeeds. It changes no bit of another
-- channel: `boot` and `start` set the channel in registers 0, 1 and 17, or 0 and 1, and `reset` clears
-- it in registers 0 and 1 if it was set in both, and else changes nothing.
pub channel_applied :
    (k : ChannelCommand) (ch : ℕ) (s : Rc) (i r : ℕ)
    → ch < num_channels
    → s.mapped ≡ true
    → Fits s
    → (succeeded (channel_command k ch s) ≡ true)
      × (test_bit i ((after s (channel_command k ch s)).regs r)
          ≡ channel_bit_after k r
              (i == ch)
              (test_bit ch (s.regs 0) && test_bit ch (s.regs 1))
              (test_bit i (s.regs r)))
unfolding channel_command on
channel_applied ChannelCommand.reset ch s i r h f w = reset_done ch s i r h f w
channel_applied ChannelCommand.boot ch s i r h f w = boot_done ch s i r h f w
channel_applied ChannelCommand.start ch s i r h f w = start_done ch s i r h f w
