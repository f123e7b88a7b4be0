-- ===== src/Board/Readings.antt =====
-- The other methods of class HVModBus that read or write registers (client/hardware/hv/hvmodbus.py).
-- Voltages and currents are in thousandths, the reference voltage is in tenths. The pair of registers of
-- a voltage is converted by the library, as an argument says.
use Prim.Native.Nat.{bit_and}
use multi_daq.Prelude.{
  Option, none, some, map_option, ℕ, ◌+◌, ◌*◌, ◌/◌, String, List, [], ◌∷◌, if◌then◌else◌, ◌&&◌,
  ◌==◌,
}
use Prim.Native.String.{◌++◌ as append}
use multi_daq.Prelude.Int.{ℤ}
use multi_daq.Hv.Lists.{Status, status_string}
use multi_daq.Board.Access.{Bus, Device, HvModbus, safe_read, safe_write, target}

abbrev first : Option (List ℕ) → Option ℕ
first (some (r ∷ rs)) = some r
first _ = none

-- `self._safe_read(addr=addr, count=1, ...)[0]`
unfoldable pub get_register : ℕ → Bus → Device → HvModbus → Option ℕ
unfolding safe_read
get_register addr bus slave s = first (safe_read bus addr 1 (target slave s) s)

unfoldable pub set_register : ℕ → Bus → ℕ → Device → HvModbus → Option HvModbus
unfolding safe_write
set_register addr bus value slave s = safe_write bus addr value (target slave s) s

abbrev pub set_modbus_address : Bus → ℕ → Device → HvModbus → Option HvModbus
set_modbus_address = set_register 0

abbrev pub get_status_basic : Bus → Device → HvModbus → Option ℕ
get_status_basic = get_register 6

unfoldable pub get_status : Bus → Device → HvModbus → Option Status
unfolding get_register
get_status bus slave s = map_option status_string (get_register 6 bus slave s)

abbrev pub reversed : Option (List ℕ) → Option (List ℕ)
reversed (some (a ∷ b ∷ [])) = some (b ∷ a ∷ [])
reversed _ = none

unfoldable pub get_pair : ℕ → (List ℕ → ℤ) → Bus → Device → HvModbus → Option ℤ
unfolding safe_read
get_pair addr convert bus slave s =
    map_option convert (reversed (safe_read bus addr 2 (target slave s) s))

abbrev pub get_voltage : (List ℕ → ℤ) → Bus → Device → HvModbus → Option ℤ
get_voltage = get_pair 42

abbrev pub get_current : (List ℕ → ℤ) → Bus → Device → HvModbus → Option ℤ
get_current = get_pair 40

abbrev pub get_voltage_set : Bus → Device → HvModbus → Option ℕ
get_voltage_set = get_register 38

abbrev pub set_voltage_set : Bus → ℕ → Device → HvModbus → Option HvModbus
set_voltage_set = set_register 38

abbrev pub get_temperature : Bus → Device → HvModbus → Option ℕ
get_temperature = get_register 7

-- In thousandths, before it is rounded to two digits.
unfoldable pub convert_temperature : ℕ → ℕ
convert_temperature value = bit_and value 255 + bit_and (value / 256) 255 * 1000

-- As numbers.
unfoldable pub get_rate : Bus → Device → HvModbus → Option (List ℕ)
unfolding safe_read
get_rate bus slave s = safe_read bus 35 2 (target slave s) s

abbrev pub set_rate_rampup : Bus → ℕ → Device → HvModbus → Option HvModbus
set_rate_rampup = set_register 35

abbrev pub set_rate_rampdown : Bus → ℕ → Device → HvModbus → Option HvModbus
set_rate_rampdown = set_register 36

-- Of the voltage, the current, the temperature and the trip time, as numbers.
unfoldable pub get_limit : Bus → Device → HvModbus → Option (ℕ × ℕ × ℕ × ℕ)
unfolding safe_read
get_limit bus slave s =
    let r = s.registers (target slave s) in
    map_option (λ rs. (r 39, r 37, r 47, r 34)) (safe_read bus 0 48 (target slave s) s)

abbrev pub set_limit_voltage : Bus → ℕ → Device → HvModbus → Option HvModbus
set_limit_voltage = set_register 39

abbrev pub set_limit_current : Bus → ℕ → Device → HvModbus → Option HvModbus
set_limit_current = set_register 37

abbrev pub set_limit_temperature : Bus → ℕ → Device → HvModbus → Option HvModbus
set_limit_temperature = set_register 47

abbrev pub set_limit_triptime : Bus → ℕ → Device → HvModbus → Option HvModbus
set_limit_triptime = set_register 34

abbrev pub set_threshold : Bus → ℕ → Device → HvModbus → Option HvModbus
set_threshold = set_register 45

abbrev pub get_threshold : Bus → Device → HvModbus → Option ℕ
get_threshold = get_register 45

abbrev pub get_alarm_basic : Bus → Device → HvModbus → Option ℕ
get_alarm_basic = get_register 46

abbrev named : ℕ → String → ℕ → String → String
named mask name code msg = if bit_and code mask == 0 then msg else append msg name

unfoldable pub alarm_string : ℕ → String
alarm_string code =
    if code == 0
    then "none"
    else named 8 "OT " code (named 4 "OC " code (named 2 "UV " code (named 1 "OV " code " ")))

unfoldable pub get_alarm : Bus → Device → HvModbus → Option String
unfolding get_register alarm_string
get_alarm bus slave s = map_option alarm_string (get_register 46 bus slave s)

abbrev pub get_vref : Bus → Device → HvModbus → Option ℕ
get_vref = get_register 46

pub record Monitoring : Type 0 where
  pub status : ℕ
  pub vset : ℕ
  pub voltage : ℕ
  pub current : ℕ
  pub temperature : ℕ
  pub rate_up : ℕ
  pub rate_down : ℕ
  pub limit_v : ℕ
  pub limit_i : ℕ
  pub limit_t : ℕ
  pub limit_trip : ℕ
  pub threshold : ℕ
  pub alarm : ℕ

unfoldable pub monitoring_of : (ℕ → ℕ) → Monitoring
unfolding convert_temperature
monitoring_of r = record {
  status = r 6;
  vset = r 38;
  voltage = r 43 * 65536 + r 42;
  current = r 41 * 65536 + r 40;
  temperature = convert_temperature (r 7);
  rate_up = r 35;
  rate_down = r 36;
  limit_v = r 39;
  limit_i = r 37;
  limit_t = r 47;
  limit_trip = r 34;
  threshold = r 45;
  alarm = r 46;
}

-- `readMonRegisters`: the client is asked directly; `none` is an exception.
unfoldable pub read_mon_registers : Bus → Device → HvModbus → Option Monitoring
unfolding monitoring_of
read_mon_registers bus slave s =
    let d = target slave s in
    if bus.connected && bus.answers d 0 48 then some (monitoring_of (s.registers d)) else none
