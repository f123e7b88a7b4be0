-- ===== src/Board/Tests.antt =====
-- Runs of HVModBus, and the theorems about it at concrete inputs.
use multi_daq.Prelude.{true, false, none, some, ℕ, List, [], ◌∷◌, ◌≡◌, refl, if◌then◌else◌, ◌==◌}
use multi_daq.Prelude.Int.{pos, negsuc}
use multi_daq.Board.Access.{Bus, Device, HvModbus, registers_from, find_feb_address}
use multi_daq.Board.Calibration.{
  Calibration, write_calib_slope, write_calib_offset, write_calib_discr, read_calib_registers,
}
use multi_daq.Board.Settings.{
  slope, offset, discr, Setting, write_settings, set_values, is_taken, all_fit, elsewhere, after,
}
use multi_daq.Board.CalibrationRoundTrip.{settings_read_back}
use multi_daq.Board.Serials.{set_pmt_serial_number, Codes, Info, get_info, padded}
use multi_daq.Board.SerialBytes.{is_ascii}
use multi_daq.Board.SerialTexts.{pmt, set_serial, is_written, with_text}
use multi_daq.Board.SerialRoundTrip.{serial_read_back}
use multi_daq.Board.Readings.{alarm_string}

-- Boards 3 and 5 answer.
abbrev bus : Bus
bus = record {
  connected = true;
  connects = true;
  answers = λ d a n. elim d [ none ↦ false | some k ↦ if k == 3 then true else k == 5 ];
  takes = λ d a vs. elim d [ none ↦ false | some k ↦ k == 3 ];
}

abbrev boards : HvModbus
boards = record { ch_addr = some 3; registers = λ d i. if i == 2 then 16690 else 0 }

abbrev settings : List Setting
settings = slope (negsuc 12344) ∷ offset (pos 70000) ∷ discr 300 ∷ slope (negsuc 69999) ∷ []

abbrev blank : Calibration
blank = record { calibm = pos 0; calibq = pos 0; calibt = 0 }

settings_read_back_example :
    (read_calib_registers bus none (write_settings bus none settings boards)
      ≡ some (set_values (is_taken bus (some 3)) settings blank))
    × ((e : Device) (i : ℕ)
        → elsewhere (some 3) (write_settings bus none settings boards) e i
          ≡ elsewhere (some 3) boards e i)
unfolding all_fit read_calib_registers registers_from
settings_read_back_example = settings_read_back bus none settings boards blank refl refl

settings_are_set :
    set_values (is_taken bus (some 3)) settings blank
    ≡ record { calibm = negsuc 69999; calibq = pos 70000; calibt = 300 }
unfolding set_values is_taken
settings_are_set = refl

-- The board with address 5 takes no write.
refused : write_settings bus (some 5) settings boards ≡ boards
unfolding write_settings write_calib_slope write_calib_discr write_calib_offset
refused = refl

abbrev nuls : Codes
nuls = 0 ∷ 0 ∷ 0 ∷ 0 ∷ 0 ∷ 0 ∷ 0 ∷ 0 ∷ 0 ∷ 0 ∷ 0 ∷ 0 ∷ []

abbrev board_info : Info
board_info = record { fwver = 65 ∷ 50 ∷ []; pmtsn = nuls; hvsn = nuls; febsn = nuls; devid = 0 }

abbrev serial : Codes
serial = 80 ∷ 77 ∷ 84 ∷ 45 ∷ 55 ∷ []

serial_read_back_example :
    get_info bus (some 3) (after boards (set_serial bus pmt serial (some 3) boards))
    ≡ some (
        if is_written bus (some 3) pmt serial
        then with_text pmt (padded 12 serial) board_info
        else board_info)
unfolding is_ascii get_info
serial_read_back_example = serial_read_back bus pmt serial (some 3) boards board_info refl refl

serial-is_written : is_written bus (some 3) pmt serial ≡ true
unfolding is_written
serial-is_written = refl

-- A serial number that is not in ASCII cannot be read back: "µ1".
serial_not_read :
    get_info bus (some 3) (after boards (set_serial bus pmt (181 ∷ 49 ∷ []) (some 3) boards)) ≡ none
unfolding get_info set_serial set_pmt_serial_number
serial_not_read = refl

found_3 : (find_feb_address bus (some 9) boards).1 ≡ some 3
unfolding find_feb_address
found_3 = refl

alarms : alarm_string 5 ≡ " OV OC "
unfolding alarm_string
alarms = refl
