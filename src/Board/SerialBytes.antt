-- ===== src/Board/SerialBytes.antt =====
-- The bytes of serial numbers in registers (client/hardware/hv/hvmodbus.py).
use Prim.Native.Nat.{zero, suc}
use multi_daq.Prelude.{
  Bool, true, false, some, ℕ, ◌+◌, ◌≤◌, ◌<◌, List, [], ◌∷◌, length, ◌&&◌, ltb, leb, ◌≡◌, refl,
  arith,
}
use multi_daq.Board.Access.{registers_from, overwritten}
use multi_daq.Board.Serials.{Codes, utf8_of, encode, decode_from, padded, unpacked, signed_bytes}

unfoldable pub is_ascii : Codes → Bool
is_ascii [] = true
is_ascii (c ∷ cs) = ltb c 128 && is_ascii cs

pub encode-is_ascii : (cs : Codes) → is_ascii cs ≡ true → encode cs ≡ some cs
unfolding encode utf8_of is_ascii
encode-is_ascii [] h = refl
encode-is_ascii (c ∷ cs) h = ground (arith, h, encode-is_ascii cs)

pub decode_from-is_ascii : (cs : Codes) → is_ascii cs ≡ true → decode_from 0 0 0 cs ≡ some cs
unfolding decode_from is_ascii
decode_from-is_ascii [] h = refl
decode_from-is_ascii (c ∷ cs) h = ground (arith, h, decode_from-is_ascii cs)

pub is_ascii-padded : (n : ℕ) (cs : Codes) → is_ascii cs ≡ true → is_ascii (padded n cs) ≡ true
unfolding padded is_ascii
is_ascii-padded zero cs h = refl
is_ascii-padded (suc n) [] h = ground (arith, is_ascii-padded n [] refl)
is_ascii-padded (suc n) (c ∷ cs) h = ground (arith, h, is_ascii-padded n cs)

unfoldable pub twice : ℕ → ℕ
twice zero = zero
twice (suc n) = suc (suc (twice n))

pub signed_bytes-unpacked :
    (n : ℕ) (cs : Codes)
    → is_ascii cs ≡ true
    → signed_bytes (unpacked n (padded (twice n) cs)) ≡ some (padded (twice n) cs)
unfolding twice signed_bytes unpacked padded is_ascii
signed_bytes-unpacked zero cs h = refl
signed_bytes-unpacked (suc n) [] h = ground (arith, signed_bytes-unpacked n [] refl)
signed_bytes-unpacked (suc n) (c ∷ []) h = ground (arith, h, signed_bytes-unpacked n [] refl)
signed_bytes-unpacked (suc n) (c ∷ d ∷ cs) h = ground (arith, h, signed_bytes-unpacked n cs)

pub length-unpacked : (n : ℕ) (cs : Codes) → length (unpacked n (padded (twice n) cs)) ≡ n
unfolding twice unpacked padded
length-unpacked zero cs = refl
length-unpacked (suc n) [] = ground (arith, length-unpacked n [])
length-unpacked (suc n) (c ∷ []) = ground (arith, length-unpacked n [])
length-unpacked (suc n) (c ∷ d ∷ cs) = ground (arith, length-unpacked n cs)

pub registers_from-same :
    (f g : ℕ → ℕ) (a n : ℕ)
    → ((i : ℕ) → a ≤ i → i < a + n → f i ≡ g i)
    → registers_from f a n ≡ registers_from g a n
unfolding registers_from
registers_from-same f g a zero h = refl
registers_from-same f g a (suc n) h =
    ground
      (arith, h a, registers_from-same f g (a + 1) n (λ i p q. h i (omega arith) (omega arith)))

pub overwritten-outside :
    (a : ℕ) (vs : List ℕ) (r : ℕ → ℕ) (i : ℕ)
    → (leb a i && ltb i (a + length vs)) ≡ false
    → overwritten a vs r i ≡ r i
unfolding overwritten
overwritten-outside a [] r i h = refl
overwritten-outside a (v ∷ vs) r i h = ground (arith, h, overwritten-outside (a + 1) vs r i)

pub registers_from-overwritten :
    (a : ℕ) (vs : List ℕ) (r : ℕ → ℕ) → registers_from (overwritten a vs r) a (length vs) ≡ vs
unfolding registers_from overwritten
registers_from-overwritten a [] r = refl
registers_from-overwritten a (v ∷ vs) r = ground (
  arith,
  registers_from-same (overwritten a (v ∷ vs) r) (overwritten (a + 1) vs r) (a + 1) (length vs)
      (λ i p q. ground (arith, p)),
  registers_from-overwritten (a + 1) vs r,
)
