-- ===== src/Board/SerialRoundTrip.antt =====
-- What is written as the serial number of a board is read back (client/hardware/hv/hvmodbus.py).
use multi_daq.Prelude.{
  Bool, true, false, Option, none, some, ℕ, ◌+◌, List, if◌then◌else◌, ◌&&◌, ◌||◌, leb, ◌≡◌, refl,
  ap, ◌∙◌, arith, Bool-cases, inl, inr,
}
use multi_daq.Board.Access.{Bus, Device, HvModbus, overwritten, same_device, put, target}
use multi_daq.Board.Serials.{Codes, padded, info_text, Info, device_number, info_of, get_info}
use multi_daq.Board.Settings.{after}
use multi_daq.Board.SerialBytes.{is_ascii, overwritten-outside}
use multi_daq.Board.SerialTexts.{
  Part, pmt, hv, feb, set_serial, register_of, serial_words, is_written, with_text, set_serial_lem,
  Parts, info_of-Parts, put_at, text_elsewhere, text_written,
}

module _ (bus : Bus) (e : Device) (s : HvModbus) (sn : Codes) where
  answered :
      (a : ℕ) (t : Codes)
      → info_text bus e a 6 s ≡ some t
      → (bus.connected && bus.answers e a 6) ≡ true
  unfolding info_text
  answered a t r = elim (Bool-cases (bus.connected && bus.answers e a 6)) [
    | inl h ↦ h
    | inr h ↦ absurd (ground (arith, h, r))
  ]

  text_read :
      (a : ℕ) (t : Codes)
      → is_ascii sn ≡ true
      → info_text bus e a 6 s ≡ some t
      → info_text bus e a 6 (put_at bus e s sn a) ≡ some (padded 12 sn)
  text_read a t h r =
      text_written bus e s sn a h
      ∙ ap (λ b. if b then some (padded 12 sn) else none) (answered a t r)

  number_elsewhere :
      (p : ℕ) → leb 6 p ≡ true → device_number bus e (put_at bus e s sn p) ≡ device_number bus e s
  unfolding overwritten same_device
  number_elsewhere p h = ground (
    arith,
    h,
    overwritten-outside p (serial_words sn) (s.registers e) 4 (ground (arith, h)),
    overwritten-outside p (serial_words sn) (s.registers e) 5 (ground (arith, h)),
  )

  -- `getInfo` of the device.
  abbrev info_at : HvModbus → Option Info
  info_at t =
      info_of (info_text bus e 2 1 t) (info_text bus e 8 6 t) (info_text bus e 14 6 t)
        (info_text bus e 20 6 t) (device_number bus e t)

  info_at-put_at :
      (p : Part) (i : Info)
      → is_ascii sn ≡ true
      → info_at s ≡ some i
      → info_at (put_at bus e s sn (register_of p)) ≡ some (with_text p (padded 12 sn) i)
  unfolding register_of Parts
  info_at-put_at p i h r = by_part p (
      info_of-Parts (info_text bus e 2 1 s) (info_text bus e 8 6 s) (info_text bus e 14 6 s)
        (info_text bus e 20 6 s) (device_number bus e s) i r)
    where
      kept :
          (p a n : ℕ)
          → (leb (a + n) p || leb (p + 6) a) ≡ true
          → info_text bus e a n (put_at bus e s sn p) ≡ info_text bus e a n s
      kept = text_elsewhere bus e s sn

      by_part :
          (p : Part)
          → Parts
              (info_text bus e 2 1 s)
              (info_text bus e 8 6 s)
              (info_text bus e 14 6 s)
              (info_text bus e 20 6 s)
              (device_number bus e s)
              i
          → info_at (put_at bus e s sn (register_of p)) ≡ some (with_text p (padded 12 sn) i)
      by_part pmt (v, w, x, y, z) =
          rw
            (
              kept 8 2 1 refl,
              text_read 8 i.pmtsn h w,
              kept 8 14 6 refl,
              kept 8 20 6 refl,
              number_elsewhere 8 refl,
              v,
              x,
              y,
              z,
            )
            refl
      by_part hv (v, w, x, y, z) =
          rw
            (
              kept 14 2 1 refl,
              text_read 14 i.hvsn h x,
              kept 14 8 6 refl,
              kept 14 20 6 refl,
              number_elsewhere 14 refl,
              v,
              w,
              y,
              z,
            )
            refl
      by_part feb (v, w, x, y, z) =
          rw
            (
              kept 20 2 1 refl,
              text_read 20 i.febsn h y,
              kept 20 8 6 refl,
              kept 20 14 6 refl,
              number_elsewhere 20 refl,
              v,
              w,
              x,
              z,
            )
            refl

target-put :
    (d : Device) (a : ℕ) (vs : List ℕ) (s : HvModbus)
    → target d (put (target d s) a vs s) ≡ target d s
target-put none a vs s = refl
target-put (some x) a vs s = refl

-- A serial number in ASCII that is written to a board (of its PMT, its HV or its FEB) is read back by
-- `getInfo`, cut to 12 bytes or padded with NUL to 12 bytes, and the other parts of what `getInfo` gives
-- are as before, provided that `getInfo` succeeds before. If the write fails, all is as before.
pub serial_read_back :
    (bus : Bus) (p : Part) (sn : Codes) (d : Device) (s : HvModbus) (i : Info)
    → is_ascii sn ≡ true
    → get_info bus d s ≡ some i
    → get_info bus d (after s (set_serial bus p sn d s))
      ≡ some (if is_written bus (target d s) p sn then with_text p (padded 12 sn) i else i)
unfolding get_info
serial_read_back bus p sn d s i h r =
    rw (set_serial_lem bus p sn d s h) (by_outcome (is_written bus (target d s) p sn))
  where
    by_outcome :
        (b : Bool)
        → get_info bus d (if b then put (target d s) (register_of p) (serial_words sn) s else s)
          ≡ some (if b then with_text p (padded 12 sn) i else i)
    by_outcome true =
        rw (target-put d (register_of p) (serial_words sn) s)
          (info_at-put_at bus (target d s) s sn p i h r)
    by_outcome false = r
