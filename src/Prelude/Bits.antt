-- ===== src/Prelude/Bits.antt =====
-- `&`, `|`, `&= ~` and `1 << k` on numbers that are not negative, read bit by bit.
use Prim.Native.Nat.{
  ℕ, zero, suc, ◌+◌, ◌-◌, ◌*◌, ◌/◌, ◌%◌, ◌^◌, ◌≤◌, ◌<◌, min, max, bit_and, bit_or, bitwise, digits,
  bit_and-bitwise, bit_or-bitwise,
}
use mathlib.Core.Path.{◌≡◌, refl, ap, sym, ◌∙◌}
use mathlib.Core.Bool.{Bool, false, not, ◌&&◌, ◌||◌}
use native.Mathlib.Nat.{mul_assoc, pow-suc, one-le-pow}
use native.Mathlib.Omega.{arith}
use package.multi_daq.Prelude.Tests.{ltb, ◌==◌, if◌then◌else◌}

-- Bit `i` of a number.
unfoldable pub test_bit : ℕ → ℕ → Bool
test_bit zero a = a % 2 == 1
test_bit (suc i) a = test_bit i (a / 2)

-- `a & ~b`
abbrev pub and_not : ℕ → ℕ → ℕ
and_not a b = a - bit_and a b

-- More digits to go than the number has change nothing.
digits_fuel :
    (z : ℕ → ℕ) (f : ℕ → ℕ → ℕ) (n m a b : ℕ) → a ≤ n → a ≤ m → digits z f n a b ≡ digits z f m a b
digits_fuel z f zero zero a b p q = refl
digits_fuel z f zero (suc m) zero b p q = refl
digits_fuel z f zero (suc m) (suc a) b p q = absurd (omega arith)
digits_fuel z f (suc n) zero zero b p q = refl
digits_fuel z f (suc n) zero (suc a) b p q = absurd (omega arith)
digits_fuel z f (suc n) (suc m) zero b p q = refl
digits_fuel z f (suc n) (suc m) (suc a) b p q =
    omega (arith, digits_fuel z f n m (suc a / 2) (b / 2) (omega arith) (omega arith))

bitwise_step :
    (z : ℕ → ℕ) (f : ℕ → ℕ → ℕ) (a b : ℕ)
    → bitwise z f (suc a) b ≡ bitwise z f (suc a / 2) (b / 2) * 2 + f (suc a % 2) (b % 2)
bitwise_step z f a b =
    omega (arith, digits_fuel z f a (suc a / 2) (suc a / 2) (b / 2) (omega arith) (omega arith))

bit_and_step : (a b : ℕ) → bit_and a b ≡ bit_and (a / 2) (b / 2) * 2 + min (a % 2) (b % 2)
bit_and_step zero b = omega (arith, bit_and-bitwise 0 b, bit_and-bitwise 0 (b / 2))
bit_and_step (suc a) b = omega (
  arith,
  bit_and-bitwise (suc a) b,
  bit_and-bitwise (suc a / 2) (b / 2),
  bitwise_step (λ b. zero) min a b,
)

bit_or_step : (a b : ℕ) → bit_or a b ≡ bit_or (a / 2) (b / 2) * 2 + max (a % 2) (b % 2)
bit_or_step zero b = omega (arith, bit_or-bitwise 0 b, bit_or-bitwise 0 (b / 2))
bit_or_step (suc a) b = omega (
  arith,
  bit_or-bitwise (suc a) b,
  bit_or-bitwise (suc a / 2) (b / 2),
  bitwise_step (λ b. b) max a b,
)

half-bit_and : (a b : ℕ) → bit_and a b / 2 ≡ bit_and (a / 2) (b / 2)
half-bit_and a b = omega (arith, bit_and_step a b)

half-bit_or : (a b : ℕ) → bit_or a b / 2 ≡ bit_or (a / 2) (b / 2)
half-bit_or a b = omega (arith, bit_or_step a b)

pub bit_and_le : (n a b : ℕ) → a ≤ n → bit_and a b ≤ a
bit_and_le n zero b h = omega (arith, bit_and_step 0 b, bit_and-bitwise 0 b)
bit_and_le zero (suc a) b h = absurd (omega arith)
bit_and_le (suc n) (suc a) b h =
    omega (arith, bit_and_step (suc a) b, bit_and_le n (suc a / 2) (b / 2) (omega arith))

half-and_not : (a b : ℕ) → and_not a b / 2 ≡ and_not (a / 2) (b / 2)
half-and_not a b = omega (arith, bit_and_step a b, bit_and_le (a / 2) (a / 2) (b / 2) (omega arith))

pub test_bit-bit_and : (i a b : ℕ) → test_bit i (bit_and a b) ≡ test_bit i a && test_bit i b
unfolding test_bit
test_bit-bit_and zero a b = ground (arith, bit_and_step a b)
test_bit-bit_and (suc i) a b = rw half-bit_and (test_bit-bit_and i (a / 2) (b / 2))

pub test_bit-bit_or : (i a b : ℕ) → test_bit i (bit_or a b) ≡ test_bit i a || test_bit i b
unfolding test_bit
test_bit-bit_or zero a b = ground (arith, bit_or_step a b)
test_bit-bit_or (suc i) a b = rw half-bit_or (test_bit-bit_or i (a / 2) (b / 2))

pub test_bit-and_not : (i a b : ℕ) → test_bit i (and_not a b) ≡ test_bit i a && not (test_bit i b)
unfolding test_bit
test_bit-and_not zero a b =
    ground (arith, bit_and_step a b, bit_and_le (a / 2) (a / 2) (b / 2) (omega arith))
test_bit-and_not (suc i) a b = rw half-and_not (test_bit-and_not i (a / 2) (b / 2))

pub test_bit-zero : (i : ℕ) → test_bit i 0 ≡ false
unfolding test_bit
test_bit-zero zero = refl
test_bit-zero (suc i) = test_bit-zero i

-- `1 << k`
pub test_bit-power : (i k : ℕ) → test_bit i (2 ^ k) ≡ (i == k)
unfolding test_bit
test_bit-power zero zero = refl
test_bit-power zero (suc k) = ground (arith, pow-suc 2 k)
test_bit-power (suc i) zero = ground (arith, test_bit-zero i)
test_bit-power (suc i) (suc k) = ground (arith, half i k, test_bit-power i k)
  where
    half : (i k : ℕ) → test_bit i (2 ^ suc k / 2) ≡ test_bit i (2 ^ k)
    half i k = ap (test_bit i) (omega (arith, pow-suc 2 k))

-- A number of `n` bits.
pub bit_or_lt : (n a b : ℕ) → a < 2 ^ n → b < 2 ^ n → bit_or a b < 2 ^ n
bit_or_lt zero a b p q = omega (arith, bit_or_zero a b (omega arith) (omega arith))
  where
    bit_or_zero : (a b : ℕ) → a ≡ 0 → b ≡ 0 → bit_or a b ≡ 0
    bit_or_zero a b p q = rw (p, q) refl
bit_or_lt (suc n) a b p q = omega (
  arith,
  pow-suc 2 n,
  bit_or_step a b,
  bit_or_lt n (a / 2) (b / 2) (omega (arith, pow-suc 2 n)) (omega (arith, pow-suc 2 n)),
)

bit_and-zero : (n a : ℕ) → a ≤ n → bit_and a 0 ≡ 0
bit_and-zero n zero h = omega (arith, bit_and-bitwise 0 0)
bit_and-zero zero (suc a) h = absurd (omega arith)
bit_and-zero (suc n) (suc a) h =
    omega (arith, bit_and_step (suc a) 0, bit_and-zero n (suc a / 2) (omega arith))

-- A test with a mask of one bit.
pub bit_and-power : (k a : ℕ) → not (bit_and a (2 ^ k) == 0) ≡ test_bit k a
unfolding test_bit
bit_and-power zero a = ground (arith, bit_and_step a 1, bit_and-zero (a / 2) (a / 2) (omega arith))
bit_and-power (suc k) a = ground (arith, step k a, bit_and-power k (a / 2))
  where
    step : (k a : ℕ) → bit_and a (2 ^ suc k) ≡ bit_and (a / 2) (2 ^ k) * 2
    step k a = omega (arith, bit_and_step a (2 ^ suc k), pow-suc 2 k, ap (bit_and (a / 2)) (half k))
      where
        half : (k : ℕ) → 2 ^ suc k / 2 ≡ 2 ^ k
        half k = omega (arith, pow-suc 2 k)

-- The bits of a number of `n` bits stand below `n`.
pub test_bit-lt : (n i a : ℕ) → a < 2 ^ n → test_bit i a ≡ (test_bit i a && ltb i n)
unfolding test_bit
test_bit-lt zero i a h = ground (arith, test_bit-none i a (omega arith))
  where
    test_bit-none : (i a : ℕ) → a ≡ 0 → test_bit i a ≡ false
    test_bit-none i a e = ground (arith, ap (test_bit i) e, test_bit-zero i)
test_bit-lt (suc n) zero a h = ground arith
test_bit-lt (suc n) (suc i) a h =
    ground (arith, test_bit-lt n i (a / 2) (omega (arith, pow-suc 2 n)))

test_bit-ones : (n i : ℕ) → test_bit i (2 ^ n - 1) ≡ ltb i n
unfolding test_bit
test_bit-ones zero i = ground (arith, test_bit-zero i)
test_bit-ones (suc n) zero = ground (arith, pow-suc 2 n, one-le-pow n 2)
test_bit-ones (suc n) (suc i) = ground (arith, half n i, test_bit-ones n i)
  where
    half : (n i : ℕ) → test_bit i ((2 ^ suc n - 1) / 2) ≡ test_bit i (2 ^ n - 1)
    half n i = ap (test_bit i) (omega (arith, pow-suc 2 n, one-le-pow n 2))

-- Clear the bits of `m` and put those of `v` in their place, on `n` bits.
pub test_bit-merge :
    (n i p m v : ℕ)
    → p < 2 ^ n
    → test_bit i (bit_or (bit_and p (and_not (2 ^ n - 1) m)) (bit_and v m))
      ≡ (if test_bit i m then test_bit i v else test_bit i p)
test_bit-merge n i p m v h = ground (
  arith,
  test_bit-bit_or i (bit_and p (and_not (2 ^ n - 1) m)) (bit_and v m),
  test_bit-bit_and i p (and_not (2 ^ n - 1) m),
  test_bit-and_not i (2 ^ n - 1) m,
  test_bit-bit_and i v m,
  test_bit-ones n i,
  test_bit-lt n i p h,
)

-- The highest bit of a number with `k + 1` bits.
pub test_bit-top : (k a : ℕ) → a < 2 ^ suc k → test_bit k a ≡ not (ltb a (2 ^ k))
unfolding test_bit
test_bit-top zero a h = ground arith
test_bit-top (suc k) a h =
    ground (arith, pow-suc 2 k, test_bit-top k (a / 2) (omega (arith, h, pow-suc 2 (suc k))))

bit_or-zero : (n a : ℕ) → a ≤ n → bit_or a 0 ≡ a
bit_or-zero n zero h = omega (arith, bit_or-bitwise 0 0)
bit_or-zero zero (suc a) h = absurd (omega arith)
bit_or-zero (suc n) (suc a) h =
    omega (arith, bit_or_step (suc a) 0, bit_or-zero n (suc a / 2) (omega arith))

-- Bits that do not meet add up.
pub bit_or-above : (k m l : ℕ) → l < 2 ^ k → bit_or (m * 2 ^ k) l ≡ m * 2 ^ k + l
bit_or-above zero m l h =
    omega (arith, bit_or-zero m m (omega arith), ap (bit_or m) empty, ap (λ y. bit_or y l) same)
  where
    same : m * 2 ^ 0 ≡ m
    same = omega arith

    empty : l ≡ 0
    empty = omega (arith, h)
bit_or-above (suc k) m l h = omega (
  arith,
  bit_or_step (m * 2 ^ suc k) l,
  ap (λ y. bit_or y (l / 2)) half,
  doubled,
  bit_or-above k m (l / 2) (omega (arith, h, pow-suc 2 k)),
)
  where
    doubled : m * 2 ^ suc k ≡ m * 2 ^ k * 2
    doubled = ap (λ y. m * y) (pow-suc 2 k) ∙ sym (mul_assoc m (2 ^ k) 2)

    half : m * 2 ^ suc k / 2 ≡ m * 2 ^ k
    half = omega (arith, doubled)
