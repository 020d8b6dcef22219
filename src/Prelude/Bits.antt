-- ===== src/Prelude/Bits.antt =====
-- Bit masks and shifted fields as arithmetic. The native operations mean a recursion on binary
-- digits with fuel; here the fuel is dropped, and fields of any width follow by induction.
use Prim.Native.Nat.{
  ℕ, zero, suc, ◌+◌, ◌*◌, ◌/◌, ◌%◌, ◌^◌, ◌≤◌, ◌<◌, min, max, digits, bit_and, bit_or,
  bit_and-bitwise, bit_or-bitwise,
}
use mathlib.Core.Path.{◌≡◌, refl, ap}
use native.Mathlib.Nat.{le_refl, pow-suc}
use native.Mathlib.Omega.{arith}

-- A recursion that has at least the number itself as fuel does not depend on it.
module _ (z : ℕ → ℕ) (f : ℕ → ℕ → ℕ) where
  digits-zero : (fuel y : ℕ) → digits z f fuel 0 y ≡ z y
  digits-zero zero y = refl
  digits-zero (suc fuel) y = refl

  fuel_free : (x y k l : ℕ) → x ≤ k → x ≤ l → digits z f k x y ≡ digits z f l x y
  fuel_free zero y k l low high = rw (digits-zero k y, digits-zero l y) refl
  fuel_free (suc x) y zero l low high = absurd (omega arith)
  fuel_free (suc x) y (suc k) zero low high = absurd (omega arith)
  fuel_free (suc x) y (suc k) (suc l) low high =
      rw (fuel_free (suc x / 2) (y / 2) k l (omega arith) (omega arith))

lowest_and : (a b : ℕ) → bit_and a b ≡ bit_and (a / 2) (b / 2) * 2 + min (a % 2) (b % 2)
lowest_and zero b = simp bit_and-bitwise (omega arith)
lowest_and (suc a) b = simp bit_and-bitwise (
    omega
      (arith, fuel_free (λ y. 0) min (suc a / 2) (b / 2) a (suc a / 2) (omega arith) (le_refl _)))

lowest_or : (a b : ℕ) → bit_or a b ≡ bit_or (a / 2) (b / 2) * 2 + max (a % 2) (b % 2)
lowest_or zero b = simp bit_or-bitwise (omega arith)
lowest_or (suc a) b = simp bit_or-bitwise (
    omega
      (arith, fuel_free (λ y. y) max (suc a / 2) (b / 2) a (suc a / 2) (omega arith) (le_refl _)))

and_zero_fuel : (n a : ℕ) → a ≤ n → bit_and a 0 ≡ 0
and_zero_fuel n zero h = refl
and_zero_fuel zero (suc a) h = absurd (omega arith)
and_zero_fuel (suc n) (suc a) h =
    omega (arith, lowest_and (suc a) 0, and_zero_fuel n (suc a / 2) (omega arith))

pub bit_and-zero : (a : ℕ) → bit_and a 0 ≡ 0
bit_and-zero a = and_zero_fuel a a (omega arith)

or_zero_fuel : (n a : ℕ) → a ≤ n → bit_or a 0 ≡ a
or_zero_fuel n zero h = refl
or_zero_fuel zero (suc a) h = absurd (omega arith)
or_zero_fuel (suc n) (suc a) h =
    omega (arith, lowest_or (suc a) 0, or_zero_fuel n (suc a / 2) (omega arith))

pub bit_or-zero : (a : ℕ) → bit_or a 0 ≡ a
bit_or-zero a = or_zero_fuel a a (omega arith)

pub zero-bit_or : (b : ℕ) → bit_or 0 b ≡ b
zero-bit_or b = bit_or-bitwise 0 b

double : (q k : ℕ) → q * 2 ^ suc k ≡ 2 * (q * 2 ^ k)
double q k = omega (arith, ap (λ (t : ℕ). q * t) (pow-suc 2 k))

-- Numbers cut at bit `k` are joined half by half.
pub bit_and-split :
    (k a b m n : ℕ)
    → b < 2 ^ k
    → n < 2 ^ k
    → bit_and (a * 2 ^ k + b) (m * 2 ^ k + n) ≡ bit_and a m * 2 ^ k + bit_and b n
bit_and-split zero a b m n hb hn =
    let eb : b ≡ 0 = omega arith in let en : n ≡ 0 = omega arith in rw (eb, en) (ground arith)
bit_and-split (suc k) a b m n hb hn = ground (
  arith,
  lowest_and (a * 2 ^ suc k + b) (m * 2 ^ suc k + n),
  lowest_and b n,
  double a k,
  double m k,
  double (bit_and a m) k,
  pow-suc 2 k,
  bit_and-split k a (b / 2) m (n / 2),
)

pub bit_or-split :
    (k a b m n : ℕ)
    → b < 2 ^ k
    → n < 2 ^ k
    → bit_or (a * 2 ^ k + b) (m * 2 ^ k + n) ≡ bit_or a m * 2 ^ k + bit_or b n
bit_or-split zero a b m n hb hn =
    let eb : b ≡ 0 = omega arith in let en : n ≡ 0 = omega arith in rw (eb, en) (ground arith)
bit_or-split (suc k) a b m n hb hn = ground (
  arith,
  lowest_or (a * 2 ^ suc k + b) (m * 2 ^ suc k + n),
  lowest_or b n,
  double a k,
  double m k,
  double (bit_or a m) k,
  pow-suc 2 k,
  bit_or-split k a (b / 2) m (n / 2),
)

-- A mask of ones keeps the digits under it, one digit after the other.
and_odd : (a mask n : ℕ) → mask ≡ n * 2 + 1 → bit_and a mask ≡ bit_and (a / 2) n * 2 + a % 2
and_odd a mask n e =
    let half : mask / 2 ≡ n = omega arith in
    let one : mask % 2 ≡ 1 = omega arith in rw (lowest_and a mask, half, one) (omega arith)

and_nibble : (a mask n : ℕ) → mask ≡ n * 16 + 15 → bit_and a mask ≡ bit_and (a / 16) n * 16 + a % 16
and_nibble a mask n e =
    let quarter : a / 2 / 2 / 2 / 2 ≡ a / 16 = omega arith in
    rw
      (
        and_odd a mask (n * 8 + 7) (omega arith),
        and_odd (a / 2) (n * 8 + 7) (n * 4 + 3) (omega arith),
        and_odd (a / 2 / 2) (n * 4 + 3) (n * 2 + 1) (omega arith),
        and_odd (a / 2 / 2 / 2) (n * 2 + 1) n refl,
        quarter,
      )
      (omega arith)

pub bit_and-byte : (x : ℕ) → x < 256 → bit_and x 0xff ≡ x
bit_and-byte x h =
    omega
      (arith, and_nibble x 255 15 refl, and_nibble (x / 16) 15 0 refl, bit_and-zero (x / 16 / 16))

-- A byte at a time: the mask's byte is all ones or all zeroes.
and_step :
    (a m n : ℕ)
    → n < 256
    → bit_and a (m * 256 + n) ≡ bit_and (a / 256) m * 256 + bit_and (a % 256) n
and_step a m n hn =
    let e : a ≡ a / 256 * 256 + a % 256 = omega arith in
    ground (arith, bit_and-split 8 (a / 256) (a % 256) m n)

and_ones : (a m : ℕ) → bit_and a (m * 256 + 255) ≡ bit_and (a / 256) m * 256 + a % 256
and_ones a m = ground (arith, and_step a m 255, bit_and-byte (a % 256))

and_zeroes : (a m : ℕ) → bit_and a (m * 256) ≡ bit_and (a / 256) m * 256
and_zeroes a m = ground (arith, and_step a m 0, bit_and-zero (a % 256))

-- the three bytes of a 24-bit address or of the IO register word
pub mask_byte_0 : (a : ℕ) → bit_and a 0xff ≡ a % 256
mask_byte_0 a = omega (arith, and_ones a 0, bit_and-zero (a / 256))

pub mask_byte_1 : (a : ℕ) → bit_and a 0xff00 ≡ a / 256 % 256 * 256
mask_byte_1 a = omega (arith, and_zeroes a 0xff, mask_byte_0 (a / 256))

pub mask_byte_2 : (a : ℕ) → bit_and a 0xff0000 ≡ a / 65536 % 256 * 65536
mask_byte_2 a = omega (arith, and_zeroes a 0xff00, mask_byte_1 (a / 256))

mask_16 : (a : ℕ) → bit_and a 0xffff ≡ a % 65536
mask_16 a = omega (arith, and_ones a 0xff, mask_byte_0 (a / 256))

mask_24 : (a : ℕ) → bit_and a 0xffffff ≡ a % 16777216
mask_24 a = omega (arith, and_ones a 0xffff, mask_16 (a / 256))

-- clearing one of those bytes in a 32-bit word
pub clear_byte_0 : (a : ℕ) → a < 2 ^ 32 → bit_and a 0xffffff00 ≡ a / 256 * 256
clear_byte_0 a h = omega (arith, and_zeroes a 0xffffff, mask_24 (a / 256))

pub clear_byte_1 : (a : ℕ) → a < 2 ^ 32 → bit_and a 0xffff00ff ≡ a / 65536 * 65536 + a % 256
clear_byte_1 a h =
    omega (arith, and_ones a 0xffff00, and_zeroes (a / 256) 0xffff, mask_16 (a / 256 / 256))

pub clear_byte_2 : (a : ℕ) → a < 2 ^ 32 → bit_and a 0xff00ffff ≡ a / 16777216 * 16777216 + a % 65536
clear_byte_2 a h = omega (
  arith,
  and_ones a 0xff00ff,
  and_ones (a / 256) 0xff00,
  and_zeroes (a / 256 / 256) 0xff,
  mask_byte_0 (a / 256 / 256 / 256),
)

-- `hi | lo` of fields that do not meet at bit `k` is their sum
pub bit_or-add : (k hi lo : ℕ) → lo < 2 ^ k → bit_or (hi * 2 ^ k) lo ≡ hi * 2 ^ k + lo
bit_or-add k hi lo h = ground (arith, bit_or-split k hi 0 0 lo, bit_or-zero hi, zero-bit_or lo)
