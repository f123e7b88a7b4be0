-- ===== src/Hv/Lists.antt =====
-- The lists of channels that HV keeps and the methods that move a channel between them
-- (client/hardware/hv/hv_interface.py). A channel is a Modbus address, 1 to 7. Every method holds
-- `channels_lock` from start to end, so it is one step.
use multi_daq.Prelude.{
  Bool, not, Option, none, some, map_option, is_some, ℕ, List, [], ◌∷◌, ◌++◌, if◌then◌else◌, ◌&&◌,
  ◌==◌, select,
}
use multi_daq.Prelude.Numbers.{has, discard, include, sorted, minus}

pub record Hv : Type 0 where
  pub ok_ch : List ℕ
  pub bad_ch : List ℕ
  pub on_ch : List ℕ
  pub off_ch : List ℕ
  pub fixed_bad : List ℕ
  pub missing_serial : List ℕ

-- `getOkOffChannels`
unfoldable pub get_ok_off_channels : Hv → List ℕ
get_ok_off_channels s = sorted (minus s.ok_ch (minus s.ok_ch s.off_ch))

-- `moveToOk`
unfoldable pub move_to_ok : ℕ → Hv → Hv
move_to_ok ch s = record s {
  ok_ch = sorted (include ch s.ok_ch);
  bad_ch = sorted (discard ch s.bad_ch);
  off_ch =
      sorted
        (if not (has ch s.off_ch) && not (has ch s.on_ch) then s.off_ch ++ ch ∷ [] else s.off_ch);
}

-- `moveToBad`
unfoldable pub move_to_bad : ℕ → Hv → Hv
move_to_bad ch s = record s {
  ok_ch = sorted (discard ch s.ok_ch);
  bad_ch = sorted (include ch s.bad_ch);
  on_ch = sorted (discard ch s.on_ch);
  off_ch = sorted (include ch s.off_ch);
}

-- `moveToOn`: only an OK channel moves.
unfoldable pub move_to_on : ℕ → Hv → Hv
move_to_on ch s =
    if not (has ch s.ok_ch)
    then s
    else record s { off_ch = sorted (discard ch s.off_ch); on_ch = sorted (include ch s.on_ch) }

-- `moveToOff`
unfoldable pub move_to_off : ℕ → Hv → Hv
move_to_off ch s = record s {
  on_ch = sorted (discard ch s.on_ch);
  off_ch = sorted (include ch s.off_ch);
}

-- `moveToFixedBad`
unfoldable pub move_to_fixed_bad : ℕ → Hv → Hv
move_to_fixed_bad ch s = record s {
  on_ch = sorted (discard ch s.on_ch);
  off_ch = sorted (discard ch s.off_ch);
  ok_ch = sorted (discard ch s.ok_ch);
  bad_ch = sorted (discard ch s.bad_ch);
  fixed_bad = include ch s.fixed_bad;
}

-- `moveToMissingSerial`
unfoldable pub move_to_missing_serial : ℕ → Hv → Hv
move_to_missing_serial ch s = record s {
  on_ch = sorted (discard ch s.on_ch);
  off_ch = sorted (discard ch s.off_ch);
  ok_ch = sorted (discard ch s.ok_ch);
  bad_ch = sorted (discard ch s.bad_ch);
  missing_serial = include ch s.missing_serial;
}

-- `removeFromFixedBad`: the channel is BAD until it is checked again.
unfoldable pub remove_from_fixed_bad : ℕ → Hv → Hv
remove_from_fixed_bad ch s = move_to_bad ch (record s { fixed_bad = discard ch s.fixed_bad })

-- `removeFromMissingSerial`
unfoldable pub remove_from_missing_serial : ℕ → Hv → Hv
remove_from_missing_serial ch s =
    move_to_bad ch (record s { missing_serial = discard ch s.missing_serial })

-- A `for` loop that applies one of the methods above to every channel.
unfoldable pub for_each : (ℕ → Hv → Hv) → List ℕ → Hv → Hv
for_each f [] s = s
for_each f (ch ∷ chs) s = for_each f chs (f ch s)

-- The two loops of `set_fixed_bad_channels`, for channels that `hv_channels_definition` accepts.
unfoldable pub replace_fixed_bad : List ℕ → Hv → Hv
replace_fixed_bad channels s =
    let old_fixed = s.fixed_bad in
    let removed = sorted (minus old_fixed channels) in
    let added = sorted (minus channels old_fixed) in
    for_each move_to_fixed_bad added (for_each remove_from_fixed_bad removed s)

-- `statusString` of client/hardware/hv/hvmodbus.py.
pub data Status : Type 0 where
  up down rup rdn tup tdn trip undef : Status

unfoldable pub status_string : ℕ → Status
status_string code =
    if code == 0
    then Status.up
    else if code == 1
    then Status.down
    else if code == 2
    then Status.rup
    else if code == 3
    then Status.rdn
    else if code == 4
    then Status.tup
    else if code == 5
    then Status.tdn
    else if code == 6
    then Status.trip
    else Status.undef

-- One turn of `sync_power_state`, once the status has been read; `none` when a read raises.
abbrev pub after_reading : Option Status → ℕ → Hv → Hv
after_reading none ch s = move_to_bad ch s
after_reading (some Status.up) ch s = move_to_on ch s
after_reading (some _) ch s = move_to_off ch s

unfoldable pub sync_channel : (ℕ → Option ℕ) → ℕ → Hv → Hv
sync_channel read ch s = after_reading (map_option status_string (read ch)) ch s

-- `sync_power_state` on a list of the caller's own.
unfoldable pub sync_power_state : (ℕ → Option ℕ) → List ℕ → Hv → Hv
unfolding sync_channel
sync_power_state read channels s = for_each (sync_channel read) channels s

abbrev pub drop_one : List ℕ → List ℕ
drop_one [] = []
drop_one (x ∷ xs) = xs

-- The loop of `sync_power_state` over `self.ok_ch` itself. The first channel that cannot be read is taken
-- out of that list by `moveToBad`, so that the loop passes over the next one; the list is another
-- object from then on, and is no longer changed.
unfoldable pub sync_shared : (ℕ → Option ℕ) → List ℕ → Hv → Hv
unfolding sync_channel
sync_shared read [] s = s
sync_shared read (ch ∷ chs) s =
    let rest = sync_shared read chs (sync_channel read ch s) in
    if is_some (read ch)
    then rest
    else sync_power_state read (drop_one chs) (sync_channel read ch s)

-- `sync_power_state(channels=self.ok_ch)`
unfoldable pub sync_ok_channels : (ℕ → Option ℕ) → Hv → Hv
unfolding sync_shared
sync_ok_channels read s = sync_shared read s.ok_ch s

-- `_normalize_channels` on channels in bounds: those that answer at their address, and the others.
unfoldable pub check_channel : (ℕ → Bool) → List ℕ → List ℕ × List ℕ
check_channel responds chs = (select responds chs, select (λ ch. not (responds ch)) chs)

abbrev pub scan_range : List ℕ
scan_range = 1 ∷ 2 ∷ 3 ∷ 4 ∷ 5 ∷ 6 ∷ 7 ∷ []

abbrev pub scanned : (ℕ → Bool) → List ℕ → Hv
scanned responds fixed =
    let scan_channels = select (λ ch. not (has ch fixed)) scan_range in
    record {
      ok_ch = (check_channel responds scan_channels).0;
      bad_ch = (check_channel responds scan_channels).1;
      on_ch = [];
      off_ch = [];
      fixed_bad = [];
      missing_serial = [];
    }

-- `HV.__init__`
unfoldable pub start : (ℕ → Bool) → (ℕ → Option ℕ) → List ℕ → Hv
start responds read fixed =
    sync_ok_channels read (for_each move_to_fixed_bad fixed (scanned responds fixed))
