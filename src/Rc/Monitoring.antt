-- ===== src/Rc/Monitoring.antt =====
-- The rates that class RC reads for the monitoring (client/hardware/rc/rc_interface.py). A reply
-- without channels, because none was selected, is `no_channels`; an exception is `none`.
use multi_daq.Prelude.{
  Bool, true, false, Option, none, some, map_option, ℕ, suc, ◌+◌, List, [], ◌∷◌, map, if◌then◌else◌,
  ◌&&◌, is_empty, is_some, select,
}
use multi_daq.Prelude.Int.{pos}
use multi_daq.Channels.Definitions.{ChannelsArg, channels_definition, range_from, unique}
use multi_daq.Rc.Registers.{Rc, num_channels, read}
use multi_daq.Rc.ChannelCommands.{mask_of, has_mask}
use Prim.Native.Nat.{bit_and}

pub record Rate : Type 0 where
  pub channel : ℕ
  pub value : Option ℕ
  pub register : ℕ
  pub enabled : Option Bool

-- A turn of the loop over channels, whose rates stand from register `base` on.
unfoldable pub rate : ℕ → Rc → Option ℕ → ℕ → Rate
unfolding read
rate base s enable_mask ch = record {
  channel = ch;
  value = read (pos (ch + base)) s;
  register = ch + base;
  enabled = map_option (has_mask (mask_of ch)) enable_mask;
}

abbrev all_read : List Rate → Bool
all_read [] = true
all_read (r ∷ rs) = is_some r.value && all_read rs

-- The dictionary of rates: a repeated channel stands once.
unfoldable pub rates : ℕ → Rc → Option ℕ → List ℕ → List Rate
unfolding rate
rates base s enable_mask chs = map (rate base s enable_mask) (unique chs)

pub data FreeRates : Type 0 where
  no_channels : FreeRates
  free : Bool → Option ℕ → List Rate → FreeRates

abbrev free_of : List ℕ → Rc → FreeRates
free_of chs s =
    let enable_mask = read (pos 39) s in
    let found = rates 20 s enable_mask chs in
    if is_empty chs
    then FreeRates.no_channels
    else FreeRates.free (is_some enable_mask && all_read found) enable_mask found

unfoldable pub free_rate_monitoring : ChannelsArg → Rc → Option FreeRates
unfolding read rates
free_rate_monitoring channels s =
    map_option (λ chs. free_of chs s) (channels_definition channels num_channels false false)

-- `bin(mask).count("1")` on 7 bits.
abbrev bits_set : ℕ → List ℕ → ℕ
bits_set m [] = 0
bits_set m (i ∷ is) = let rest = bits_set m is in if has_mask (mask_of i) m then suc rest else rest

pub data TriggerConfig : Type 0 where
  exact : ℕ → List ℕ → TriggerConfig
  majority : ℕ → ℕ → TriggerConfig

-- `_decode_auto_trigger_config`: bit 7 is the mode, bits 0 to 6 are channels.
unfoldable pub decode_auto_trigger_config : ℕ → TriggerConfig
unfolding range_from
decode_auto_trigger_config reg31 =
    let channel_mask = bit_and reg31 127 in
    if has_mask 128 reg31
    then TriggerConfig.exact reg31
        (select (λ ch. has_mask (mask_of ch) channel_mask) (range_from 0 num_channels))
    else TriggerConfig.majority reg31 (bits_set channel_mask (range_from 0 num_channels))

pub record Triggers : Type 0 where
  pub success : Bool
  pub external_trigger_rate : Option ℕ
  pub auto_trigger_rate : Option ℕ
  pub auto_trigger_config : Option TriggerConfig
  pub enable_mask : Option ℕ
  pub channels : List Rate

pub data TriggerRates : Type 0 where
  no_channels : TriggerRates
  triggers : Triggers → TriggerRates

abbrev triggers_of : List ℕ → Bool → Rc → Triggers
triggers_of chs include_trg_channels s =
    let enable_mask = read (pos 39) s in
    let found = if include_trg_channels then rates 32 s enable_mask chs else [] in
    record {
      success =
          is_some (read (pos 27) s)
          && is_some (read (pos 28) s)
          && is_some (read (pos 31) s)
          && is_some enable_mask
          && all_read found;
      external_trigger_rate = read (pos 27) s;
      auto_trigger_rate = read (pos 28) s;
      auto_trigger_config = map_option decode_auto_trigger_config (read (pos 31) s);
      enable_mask = enable_mask;
      channels = found;
    }

abbrev trigger_reply : List ℕ → Bool → Rc → TriggerRates
trigger_reply chs include_trg_channels s =
    if is_empty chs
    then TriggerRates.no_channels
    else TriggerRates.triggers (triggers_of chs include_trg_channels s)

unfoldable pub trg_rate_monitoring : ChannelsArg → Bool → Rc → Option TriggerRates
unfolding read rates decode_auto_trigger_config
trg_rate_monitoring channels include_trg_channels s =
    map_option (λ chs. trigger_reply chs include_trg_channels s)
      (channels_definition channels num_channels false false)

pub data AllRates : Type 0 where
  unreadable : AllRates
  all_rates : Bool → Bool → FreeRates → TriggerRates → AllRates

abbrev free_success : FreeRates → Bool
free_success FreeRates.no_channels = false
free_success (FreeRates.free b m rs) = b

abbrev trigger_success : TriggerRates → Bool
trigger_success TriggerRates.no_channels = false
trigger_success (TriggerRates.triggers t) = t.success

abbrev combined : Bool → Option FreeRates → Option TriggerRates → Option AllRates
combined on (some f) (some t) =
    some (AllRates.all_rates (free_success f && trigger_success t) on f t)
combined on _ _ = none

-- The rates of the trigger per channel are read when bit 1 of register 15 is set.
abbrev rates_with : Option ℕ → ChannelsArg → Rc → Option AllRates
rates_with none channels s = some AllRates.unreadable
rates_with (some reg15) channels s =
    combined (has_mask 2 reg15) (free_rate_monitoring channels s)
      (trg_rate_monitoring channels (has_mask 2 reg15) s)

unfoldable pub monitor_all_rates : ChannelsArg → Rc → Option AllRates
unfolding read free_rate_monitoring trg_rate_monitoring
monitor_all_rates channels s = rates_with (read (pos 15) s) channels s
