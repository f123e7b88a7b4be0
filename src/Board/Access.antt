-- ===== src/Board/Access.antt =====
-- The accesses of class HVModBus to the registers of a board, and the search for a board
-- (client/hardware/hv/hvmodbus.py). The Modbus library and the boards are a record of what they
-- answer; the registers of the boards are memory.
use Prim.Native.Nat.{zero, suc}
use multi_daq.Prelude.{
  Bool, true, false, not, Option, none, some, ℕ, ◌+◌, List, [], ◌∷◌, if◌then◌else◌, ◌&&◌, ◌||◌,
  ◌==◌, ltb, ◌≡◌, refl, arith,
}

-- `device_id`: the address of a board, or None.
abbrev pub Device : Type 0
Device = Option ℕ

-- What the library does: whether the client is connected, whether connecting succeeds, and whether a
-- read (its first register and their number) or a write (the first register and the values) is answered
-- without an error.
pub record Bus : Type 0 where
  pub connected : Bool
  pub connects : Bool
  pub answers : Device → ℕ → ℕ → Bool
  pub takes : Device → ℕ → List ℕ → Bool

pub record HvModbus : Type 0 where
  pub ch_addr : Device
  pub registers : Device → ℕ → ℕ

abbrev pub num_channels : ℕ
num_channels = 20

-- `_ensure_connected`
unfoldable pub ensure_connected : Bus → Bool
ensure_connected bus = bus.connected || bus.connects

-- `count` registers from `addr` on.
unfoldable pub registers_from : (ℕ → ℕ) → ℕ → ℕ → List ℕ
registers_from r a zero = []
registers_from r a (suc n) = r a ∷ registers_from r (a + 1) n

-- `_safe_read`; `none` is ModbusException.
unfoldable pub safe_read : Bus → ℕ → ℕ → Device → HvModbus → Option (List ℕ)
unfolding ensure_connected registers_from
safe_read bus addr count d s =
    if ensure_connected bus && bus.answers d addr count
    then some (registers_from (s.registers d) addr count)
    else none

unfoldable pub same_device : Device → Device → Bool
same_device none none = true
same_device (some a) (some b) = a == b
same_device _ _ = false

pub same_device_refl : (e : Device) → same_device e e ≡ true
unfolding same_device
same_device_refl none = refl
same_device_refl (some a) = ground arith

-- `values` from `addr` on.
unfoldable pub overwritten : ℕ → List ℕ → (ℕ → ℕ) → ℕ → ℕ
overwritten a [] r i = r i
overwritten a (v ∷ vs) r i = let rest = overwritten (a + 1) vs r i in if i == a then v else rest

abbrev pub put : Device → ℕ → List ℕ → HvModbus → HvModbus
put d a vs s = record s {
  registers =
      λ e i. if same_device d e then overwritten a vs (s.registers e) i else s.registers e i;
}

-- `_safe_write_multiple`; `none` is ModbusException.
unfoldable pub safe_write_multiple : Bus → ℕ → List ℕ → Device → HvModbus → Option HvModbus
unfolding ensure_connected overwritten same_device
safe_write_multiple bus addr values d s =
    if ensure_connected bus && bus.takes d addr values then some (put d addr values s) else none

-- `_safe_write`
unfoldable pub safe_write : Bus → ℕ → ℕ → Device → HvModbus → Option HvModbus
unfolding ensure_connected overwritten same_device
safe_write bus addr value d s =
    if ensure_connected bus && bus.takes d addr (value ∷ [])
    then some (put d addr (value ∷ []) s)
    else none

-- `self.ch_addr if slave is None else slave`
abbrev pub target : Device → HvModbus → Device
target none s = s.ch_addr
target (some a) s = some a

-- `open`
unfoldable pub open_channel : Bus → ℕ → HvModbus → HvModbus × Bool
unfolding safe_read
open_channel bus channel s = elim (safe_read bus 0 1 (some channel) s) [
  | none ↦ (s, false)
  | some rs ↦ (record s { ch_addr = some channel }, true)
]

unfoldable pub check_address_boundary : ℕ → Bool
check_address_boundary channel = not (ltb channel 1 || ltb num_channels channel)

unfoldable pub is_connected : HvModbus → Bool
is_connected s = elim s.ch_addr [ none ↦ false | some a ↦ true ]

-- What `checkAddress` does after `open`.
abbrev pub checked : ℕ → HvModbus × Bool → HvModbus × Bool
checked a (s, true) = (s, same_device s.ch_addr (some a) && is_connected s)
checked a (s, false) = (record s { ch_addr = none }, false)

-- `checkAddress`
unfoldable pub check_address : Bus → ℕ → HvModbus → HvModbus × Bool
unfolding open_channel same_device is_connected
check_address bus a s = checked a (open_channel bus a s)

unfoldable pub member : ℕ → List ℕ → Bool
member x [] = false
member x (y ∷ ys) = y == x || member x ys

-- The loop of `find_feb_address`, with the addresses that were tried.
unfoldable pub find_from : Bus → List ℕ → List ℕ → HvModbus → HvModbus × Option ℕ
unfolding check_address member
find_from bus [] seen s = (s, none)
find_from bus (a ∷ rest_of) seen s =
    let skipped = find_from bus rest_of seen s in
    let tried = check_address bus a s in
    let rest = find_from bus rest_of (a ∷ seen) tried.0 in
    if member a seen then skipped else if tried.1 then (tried.0, some a) else rest

-- `range(a, a + n)`
unfoldable pub range_from : ℕ → ℕ → List ℕ
range_from a zero = []
range_from a (suc n) = a ∷ range_from (a + 1) n

abbrev pub candidates : Option ℕ → List ℕ
candidates none = range_from 1 num_channels
candidates (some a) = a ∷ range_from 1 num_channels

-- `find_feb_address`
unfoldable pub find_feb_address : Bus → Option ℕ → HvModbus → HvModbus × Option ℕ
unfolding find_from range_from
find_feb_address bus preferred s = find_from bus (candidates preferred) [] s
