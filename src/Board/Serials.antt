-- ===== src/Board/Serials.antt =====
-- The serial numbers of a board (client/hardware/hv/hvmodbus.py): texts of 12 bytes in six registers. A
-- text is the list of its code points.
use Prim.Native.Nat.{zero, suc}
use multi_daq.Prelude.{
  Bool, true, false, not, Option, none, some, map_option, ℕ, ◌+◌, ◌-◌, ◌*◌, ◌/◌, ◌%◌, List, [], ◌∷◌,
  ◌++◌, if◌then◌else◌, ◌&&◌, ltb, leb,
}
use multi_daq.Board.Access.{Bus, Device, HvModbus, registers_from, safe_write_multiple, target}

abbrev pub Codes : Type 0
Codes = List ℕ

-- UTF-8 of one character; `none` is UnicodeEncodeError.
unfoldable pub utf8_of : ℕ → Option (List ℕ)
utf8_of c =
    if ltb c 128
    then some (c ∷ [])
    else if ltb c 2048
    then some ((192 + c / 64) ∷ (128 + c % 64) ∷ [])
    else if leb 55296 c && leb c 57343
    then none
    else if ltb c 65536
    then some ((224 + c / 4096) ∷ (128 + c / 64 % 64) ∷ (128 + c % 64) ∷ [])
    else some
        ((240 + c / 262144) ∷ (128 + c / 4096 % 64) ∷ (128 + c / 64 % 64) ∷ (128 + c % 64) ∷ [])

-- `str.encode("utf-8")`
unfoldable pub encode : Codes → Option (List ℕ)
unfolding utf8_of
encode [] = some []
encode (c ∷ cs) = elim (utf8_of c) [
  | none ↦ none
  | some bs ↦ map_option (λ rest. bs ++ rest) (encode cs)
]

-- What the first byte of a character says.
pub data Lead : Type 0 where
  ascii two three four wrong : Lead

abbrev lead : ℕ → Lead
lead b =
    if ltb b 128
    then ascii
    else if leb 194 b && leb b 223
    then two
    else if leb 224 b && leb b 239
    then three
    else if leb 240 b && leb b 244
    then four
    else wrong

-- A character from its bytes, which must not fit into fewer bytes.
abbrev is_character : ℕ → ℕ → Bool
is_character low c = leb low c && not (leb 55296 c && leb c 57343) && leb c 1114111

-- The decoding after `pending` further bytes of a character, whose bits so far are `acc`.
unfoldable pub decode_from : ℕ → ℕ → ℕ → List ℕ → Option Codes
decode_from zero acc low [] = some []
decode_from (suc pending) acc low [] = none
decode_from zero acc low (b ∷ bs) = elim (lead b) [
  | ascii ↦ map_option (λ cs. b ∷ cs) (decode_from 0 0 0 bs)
  | two ↦ decode_from 1 (b - 192) 128 bs
  | three ↦ decode_from 2 (b - 224) 2048 bs
  | four ↦ decode_from 3 (b - 240) 65536 bs
  | wrong ↦ none
]
decode_from (suc zero) acc low (b ∷ bs) =
    elim (leb 128 b && leb b 191 && is_character low (acc * 64 + (b - 128))) [
      | true ↦ map_option (λ cs. (acc * 64 + (b - 128)) ∷ cs) (decode_from 0 0 0 bs)
      | false ↦ none
    ]
decode_from (suc (suc pending)) acc low (b ∷ bs) = elim (leb 128 b && leb b 191) [
  | true ↦ decode_from (suc pending) (acc * 64 + (b - 128)) low bs
  | false ↦ none
]

-- `bytes.decode()`; `none` is UnicodeDecodeError.
unfoldable pub decode : List ℕ → Option Codes
unfolding decode_from
decode bs = decode_from 0 0 0 bs

-- `b[:n].ljust(n, b"\x00")`
unfoldable pub padded : ℕ → List ℕ → List ℕ
padded zero bs = []
padded (suc n) [] = 0 ∷ padded n []
padded (suc n) (b ∷ bs) = b ∷ padded n bs

-- `struct.unpack(">6H", b)`
unfoldable pub unpacked : ℕ → List ℕ → List ℕ
unpacked zero bs = []
unpacked (suc n) (h ∷ l ∷ bs) = (h * 256 + l) ∷ unpacked n bs
unpacked (suc n) _ = []

-- `_pack_sn_to_registers`
unfoldable pub pack_sn_to_registers : Codes → Option (List ℕ)
unfolding encode padded unpacked
pack_sn_to_registers sn = map_option (λ bs. unpacked 6 (padded 12 bs)) (encode sn)

-- `struct.pack(f'>{len(l)}h', *l)`: the registers are taken as numbers with a sign; `none` is
-- struct.error.
unfoldable pub signed_bytes : List ℕ → Option (List ℕ)
signed_bytes [] = some []
signed_bytes (r ∷ rs) =
    if leb r 32767 then map_option (λ bs. (r / 256) ∷ (r % 256) ∷ bs) (signed_bytes rs) else none

abbrev pub decoded_bytes : Option (List ℕ) → Option Codes
decoded_bytes none = none
decoded_bytes (some bs) = decode bs

-- One text of `getInfo`. The client is asked directly: nothing connects it again.
unfoldable pub info_text : Bus → Device → ℕ → ℕ → HvModbus → Option Codes
unfolding signed_bytes decode registers_from
info_text bus d addr count s =
    if bus.connected && bus.answers d addr count
    then decoded_bytes (signed_bytes (registers_from (s.registers d) addr count))
    else none

pub record Info : Type 0 where
  pub fwver : Codes
  pub pmtsn : Codes
  pub hvsn : Codes
  pub febsn : Codes
  pub devid : ℕ

abbrev pub device_number : Bus → Device → HvModbus → Option ℕ
device_number bus d s =
    if bus.connected && bus.answers d 4 2
    then some (s.registers d 5 * 65536 + s.registers d 4)
    else none

abbrev pub info_of :
    Option Codes → Option Codes → Option Codes → Option Codes → Option ℕ → Option Info
info_of (some f) (some p) (some h) (some e) (some n) =
    some (record { fwver = f; pmtsn = p; hvsn = h; febsn = e; devid = n })
info_of _ _ _ _ _ = none

-- `getInfo`; `none` is an exception.
unfoldable pub get_info : Bus → Device → HvModbus → Option Info
unfolding info_text
get_info bus slave s =
    let d = target slave s in
    info_of (info_text bus d 2 1 s) (info_text bus d 8 6 s) (info_text bus d 14 6 s)
      (info_text bus d 20 6 s) (device_number bus d s)

abbrev write_serial : Bus → ℕ → Device → HvModbus → Option (List ℕ) → Option HvModbus
write_serial bus addr slave s none = none
write_serial bus addr slave s (some data_words) =
    safe_write_multiple bus addr data_words (target slave s) s

-- `setPMTSerialNumber`
unfoldable pub set_pmt_serial_number : Bus → Codes → Device → HvModbus → Option HvModbus
unfolding pack_sn_to_registers safe_write_multiple
set_pmt_serial_number bus sn slave s = write_serial bus 8 slave s (pack_sn_to_registers sn)

-- `setHVSerialNumber`
unfoldable pub set_hv_serial_number : Bus → Codes → Device → HvModbus → Option HvModbus
unfolding pack_sn_to_registers safe_write_multiple
set_hv_serial_number bus sn slave s = write_serial bus 14 slave s (pack_sn_to_registers sn)

-- `setFEBSerialNumber`
unfoldable pub set_feb_serial_number : Bus → Codes → Device → HvModbus → Option HvModbus
unfolding pack_sn_to_registers safe_write_multiple
set_feb_serial_number bus sn slave s = write_serial bus 20 slave s (pack_sn_to_registers sn)
