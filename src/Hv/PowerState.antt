-- ===== src/Hv/PowerState.antt =====
-- `get_power_state` of HV (client/hardware/hv/hv_interface.py).
use multi_daq.Prelude.{
  Bool, true, false, Option, none, some, map_option, ℕ, suc, List, [], ◌∷◌, ◌++◌,
}
use multi_daq.Channels.Definitions.{ChannelsArg, hv_channels_definition}
use multi_daq.Hv.Lists.{Hv, Status, move_to_bad, move_to_on, move_to_off}
use multi_daq.Hv.Commands.{n_channels}

-- What the reads of a status give: those before the deadline, and the first one from the deadline on.
-- `none` when a read raises.
pub record Reads : Type 0 where
  pub before : List (Option Status)
  pub last : Option Status

pub data PowerState : Type 0 where
  is_on is_off tripped moving unknown unreadable : PowerState

unfoldable pub power_state_of : Option Status → PowerState
power_state_of none = unreadable
power_state_of (some Status.up) = is_on
power_state_of (some Status.down) = is_off
power_state_of (some Status.trip) = tripped
power_state_of (some Status.undef) = unknown
power_state_of (some _) = moving

-- `while True`: a channel that is moving is read again, until the deadline.
unfoldable pub settle_power : List (Option Status) → Option Status → PowerState
unfolding power_state_of
settle_power [] last = power_state_of last
settle_power (r ∷ rs) last =
    let rest = settle_power rs last in
    elim (power_state_of r) [
      | moving ↦ rest
      | is_on ↦ is_on
      | is_off ↦ is_off
      | tripped ↦ tripped
      | unknown ↦ unknown
      | unreadable ↦ unreadable
    ]

-- `power_state` has true for "on"; a repeated channel keeps its last entry.
pub record PowerReply : Type 0 where
  pub hv : Hv
  pub successful_channels : List ℕ
  pub failed_channels : List ℕ
  pub power_state : List (ℕ × Bool)

abbrev pub note_power : PowerState → ℕ → PowerReply → PowerReply
note_power is_on ch r = record r {
  hv = move_to_on ch r.hv;
  successful_channels = r.successful_channels ++ ch ∷ [];
  power_state = r.power_state ++ (ch, true) ∷ [];
}
note_power is_off ch r = record r {
  hv = move_to_off ch r.hv;
  successful_channels = r.successful_channels ++ ch ∷ [];
  power_state = r.power_state ++ (ch, false) ∷ [];
}
note_power tripped ch r = record r {
  hv = move_to_bad ch r.hv;
  failed_channels = r.failed_channels ++ ch ∷ [];
}
note_power unreadable ch r = record r {
  hv = move_to_bad ch r.hv;
  failed_channels = r.failed_channels ++ ch ∷ [];
}
note_power _ ch r = record r { failed_channels = r.failed_channels ++ ch ∷ [] }

unfoldable pub power_states : (ℕ → Reads) → ℕ → List ℕ → PowerReply → PowerReply
unfolding settle_power
power_states reads n [] r = r
power_states reads n (ch ∷ chs) r =
    power_states reads (suc n) chs (note_power (settle_power (reads n).before (reads n).last) ch r)

abbrev pub no_power : Hv → PowerReply
no_power s = record { hv = s; successful_channels = []; failed_channels = []; power_state = [] }

unfoldable pub get_power_state : (ℕ → Reads) → ChannelsArg → Hv → Option PowerReply
unfolding power_states
get_power_state reads channels s =
    map_option (λ chs. power_states reads 0 chs (no_power s))
      (hv_channels_definition channels n_channels)
