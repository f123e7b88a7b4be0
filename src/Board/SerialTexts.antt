-- ===== src/Board/SerialTexts.antt =====
-- The texts that are read after a serial number was written (client/hardware/hv/hvmodbus.py).
use multi_daq.Prelude.{
  Bool, true, Option, none, some, ℕ, ◌+◌, List, length, if◌then◌else◌, ◌&&◌, ◌||◌, leb, ◌≡◌, sym,
  ap, ◌∙◌, arith,
}
use multi_daq.Board.Access.{
  Bus, Device, HvModbus, ensure_connected, registers_from, overwritten, same_device,
  same_device_refl, put, target, safe_write_multiple,
}
use multi_daq.Board.Serials.{
  Codes, decode, padded, unpacked, pack_sn_to_registers, signed_bytes, decoded_bytes, info_text,
  Info, info_of, set_pmt_serial_number, set_hv_serial_number, set_feb_serial_number,
}
use multi_daq.Board.Settings.{after}
use multi_daq.Board.SerialBytes.{
  is_ascii, encode-is_ascii, decode_from-is_ascii, is_ascii-padded, twice, signed_bytes-unpacked,
  length-unpacked, registers_from-same, overwritten-outside, registers_from-overwritten,
}

-- The three serial numbers of a board.
pub data Part : Type 0 where
  pmt hv feb : Part

unfoldable pub set_serial : Bus → Part → Codes → Device → HvModbus → Option HvModbus
set_serial bus pmt sn d s = set_pmt_serial_number bus sn d s
set_serial bus hv sn d s = set_hv_serial_number bus sn d s
set_serial bus feb sn d s = set_feb_serial_number bus sn d s

-- The first of the registers of a serial number.
unfoldable pub register_of : Part → ℕ
register_of pmt = 8
register_of hv = 14
register_of feb = 20

unfoldable pub serial_words : Codes → List ℕ
unfolding unpacked padded
serial_words sn = unpacked 6 (padded 12 sn)

unfoldable pub is_written : Bus → Device → Part → Codes → Bool
unfolding ensure_connected register_of serial_words
is_written bus e p sn = ensure_connected bus && bus.takes e (register_of p) (serial_words sn)

abbrev pub with_text : Part → Codes → Info → Info
with_text pmt t i = record i { pmtsn = t }
with_text hv t i = record i { hvsn = t }
with_text feb t i = record i { febsn = t }

pub set_serial_lem :
    (bus : Bus) (p : Part) (sn : Codes) (d : Device) (s : HvModbus)
    → is_ascii sn ≡ true
    → after s (set_serial bus p sn d s) ≡ (
        if is_written bus (target d s) p sn
        then put (target d s) (register_of p) (serial_words sn) s
        else s)
unfolding set_serial set_pmt_serial_number set_hv_serial_number set_feb_serial_number
    pack_sn_to_registers safe_write_multiple is_written register_of serial_words
set_serial_lem bus pmt sn d s h = rw (encode-is_ascii sn h) ground arith
set_serial_lem bus hv sn d s h = rw (encode-is_ascii sn h) ground arith
set_serial_lem bus feb sn d s h = rw (encode-is_ascii sn h) ground arith

module _ (bus : Bus) (e : Device) (s : HvModbus) (sn : Codes) where
  -- The registers with a serial number written from `p` on.
  abbrev pub put_at : ℕ → HvModbus
  put_at p = put e p (serial_words sn) s

  pub length-serial_words : length (serial_words sn) ≡ 6
  unfolding serial_words twice
  length-serial_words = length-unpacked 6 sn

  pub text_elsewhere :
      (p a n : ℕ)
      → (leb (a + n) p || leb (p + 6) a) ≡ true
      → info_text bus e a n (put_at p) ≡ info_text bus e a n s
  unfolding info_text overwritten same_device
  text_elsewhere p a n h = ground (
    arith,
    registers_from-same ((put_at p).registers e) (s.registers e) a n (λ i b c. ground (
      arith,
      same_device_refl e,
      overwritten-outside p (serial_words sn) (s.registers e) i
          (ground (arith, h, b, c, length-serial_words)),
    )),
  )

  words_written : (p : ℕ) → registers_from ((put_at p).registers e) p 6 ≡ serial_words sn
  unfolding overwritten same_device
  words_written p =
      registers_from-same ((put_at p).registers e) (overwritten p (serial_words sn) (s.registers e))
        p 6 (λ i b c. ground (arith, same_device_refl e))
      ∙ ap (registers_from (overwritten p (serial_words sn) (s.registers e)) p)
          (sym length-serial_words)
      ∙ registers_from-overwritten p (serial_words sn) (s.registers e)

  bytes_written :
      (p : ℕ)
      → is_ascii sn ≡ true
      → decoded_bytes (signed_bytes (registers_from ((put_at p).registers e) p 6))
        ≡ some (padded 12 sn)
  unfolding decode serial_words twice
  bytes_written p h =
      ap (λ ws. decoded_bytes (signed_bytes ws)) (words_written p)
      ∙ ap decoded_bytes (signed_bytes-unpacked 6 sn h)
      ∙ decode_from-is_ascii (padded 12 sn) (is_ascii-padded 12 sn h)

  pub text_written :
      (p : ℕ)
      → is_ascii sn ≡ true
      → info_text bus e p 6 (put_at p)
        ≡ (if bus.connected && bus.answers e p 6 then some (padded 12 sn) else none)
  unfolding info_text
  text_written p h =
      ap (λ x. if bus.connected && bus.answers e p 6 then x else none) (bytes_written p h)

-- The parts of what `getInfo` gives.
unfoldable pub Parts :
    Option Codes → Option Codes → Option Codes → Option Codes → Option ℕ → Info → Type 0
Parts f p h e n i =
    (f ≡ some i.fwver)
    × (p ≡ some i.pmtsn)
    × (h ≡ some i.hvsn)
    × (e ≡ some i.febsn)
    × (n ≡ some i.devid)

pub info_of-Parts :
    (f p h e : Option Codes) (n : Option ℕ) (i : Info)
    → info_of f p h e n ≡ some i
    → Parts f p h e n i
unfolding Parts
info_of-Parts none p h e n i r = absurd (ground (arith, r))
info_of-Parts (some f) none h e n i r = absurd (ground (arith, r))
info_of-Parts (some f) (some p) none e n i r = absurd (ground (arith, r))
info_of-Parts (some f) (some p) (some h) none n i r = absurd (ground (arith, r))
info_of-Parts (some f) (some p) (some h) (some e) none i r = absurd (ground (arith, r))
info_of-Parts (some f) (some p) (some h) (some e) (some n) i r =
    let same = ap (get_or i) r in
    (
      ap (λ x. some x.fwver) same,
      ap (λ x. some x.pmtsn) same,
      ap (λ x. some x.hvsn) same,
      ap (λ x. some x.febsn) same,
      ap (λ x. some x.devid) same,
    )
  where
    get_or : Info → Option Info → Info
    get_or i none = i
    get_or i (some x) = x
