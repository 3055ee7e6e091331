-- ===== src/Base/Bits.antt =====
-- `a << k | v` of C++ on unsigned words, at variables.
use Prim.Native.Nat.{
  ℕ, zero, suc, ◌+◌, ◌*◌, ◌/◌, ◌%◌, ◌^◌, ◌≤◌, ◌<◌, max, min, bit_or, bit_and, digits,
  bit_or-bitwise, bit_and-bitwise, bit_xor, bit_xor-bitwise, differ,
}
use mathlib.Core.Path.{◌≡◌, refl, sym, ap}
use native.Mathlib.Omega.{arith}
use native.Mathlib.Nat.{pow-suc, mul_assoc}

-- `bit_or` by its binary digits, at most `n` of them.
abbrev or_upto : ℕ → ℕ → ℕ → ℕ
or_upto n a b = digits (λ y. y) max n a b

or_upto_fuel : (n m a b : ℕ) → a ≤ n → a ≤ m → or_upto n a b ≡ or_upto m a b
or_upto_fuel zero zero a b p q = refl
or_upto_fuel zero (suc m) zero b p q = refl
or_upto_fuel zero (suc m) (suc a) b p q = absurd (omega arith)
or_upto_fuel (suc n) zero zero b p q = refl
or_upto_fuel (suc n) zero (suc a) b p q = absurd (omega arith)
or_upto_fuel (suc n) (suc m) zero b p q = refl
or_upto_fuel (suc n) (suc m) (suc a) b p q =
    omega (arith, or_upto_fuel n m (suc a / 2) (b / 2) (omega arith) (omega arith))

zero-bit_or : (b : ℕ) → bit_or 0 b ≡ b
zero-bit_or b = bit_or-bitwise 0 b

low_digit : (x y : ℕ) → bit_or x y ≡ max (x % 2) (y % 2) + 2 * bit_or (x / 2) (y / 2)
low_digit zero y = omega (arith, zero-bit_or (y / 2), zero-bit_or y)
low_digit (suc x) y =
    let half = suc x / 2 in
    let enough = or_upto_fuel x half half (y / 2) (omega arith) (omega arith) in
    omega (arith, enough, bit_or-bitwise half (y / 2), bit_or-bitwise (suc x) y)

bit_or-zero_upto : (n a : ℕ) → a ≤ n → bit_or a 0 ≡ a
bit_or-zero_upto n zero h = refl
bit_or-zero_upto zero (suc a) h = absurd (omega arith)
bit_or-zero_upto (suc n) (suc a) h =
    omega (arith, low_digit (suc a) 0, bit_or-zero_upto n (suc a / 2) (omega arith))

-- Below the shift the two words have no bit in common, so `|` is the sum.
pub bit_or-shifted : (k a v : ℕ) → v < 2 ^ k → bit_or (a * 2 ^ k) v ≡ a * 2 ^ k + v
bit_or-shifted zero a zero h =
    let unit : a * 2 ^ 0 ≡ a = omega arith in
    rw unit (omega (arith, bit_or-zero_upto a a (omega arith)))
bit_or-shifted zero a (suc v) h = absurd (omega arith)
bit_or-shifted (suc k) a v h =
    let double : a * 2 ^ suc k ≡ a * 2 ^ k * 2 = rw pow-suc (sym (mul_assoc a (2 ^ k) 2)) in
    let half : v / 2 < 2 ^ k = omega (arith, pow-suc 2 k) in
    let back : a * 2 ^ k * 2 / 2 ≡ a * 2 ^ k = omega arith in
    rw double (
      omega (
        arith,
        low_digit (a * 2 ^ k * 2) v,
        ap (λ t. bit_or t (v / 2)) back,
        bit_or-shifted k a (v / 2) half,
      ))

-- `bit_and` by its binary digits, at most `n` of them.
abbrev and_upto : ℕ → ℕ → ℕ → ℕ
and_upto n a b = digits (λ y. 0) min n a b

and_upto-le : (n a b : ℕ) → and_upto n a b ≤ b
and_upto-le zero zero b = omega arith
and_upto-le zero (suc a) b = omega arith
and_upto-le (suc n) zero b = omega arith
and_upto-le (suc n) (suc a) b = omega (arith, and_upto-le n (suc a / 2) (b / 2))

-- A masked value is at most the mask.
pub bit_and-le : (a b : ℕ) → bit_and a b ≤ b
bit_and-le a b = omega (arith, bit_and-bitwise a b, and_upto-le a a b)

differ_bits : (x y : ℕ) → x < 2 → y < 2 → differ x y < 2
differ_bits zero y h g = g
differ_bits (suc x) zero h g = h
differ_bits (suc zero) (suc zero) h g = omega arith
differ_bits (suc zero) (suc (suc y)) h g = absurd (omega arith)
differ_bits (suc (suc x)) (suc y) h g = absurd (omega arith)

xor_upto-lt : (n k a b : ℕ) → a < 2 ^ k → b < 2 ^ k → digits (λ y. y) differ n a b < 2 ^ k
xor_upto-lt zero k a b h g = g
xor_upto-lt (suc n) k zero b h g = g
xor_upto-lt (suc n) zero (suc a) b h g = absurd (omega arith)
xor_upto-lt (suc n) (suc k) (suc a) b h g =
    let double : 2 ^ suc k ≡ 2 ^ k * 2 = pow-suc 2 k in
    rw double (
      omega (
        arith,
        double,
        differ_bits (suc a % 2) (b % 2) (omega arith) (omega arith),
        xor_upto-lt n k (suc a / 2) (b / 2) (omega (arith, double)) (omega (arith, double)),
      ))

-- A sum without carries of two words of `k` bits is a word of `k` bits.
pub bit_xor-lt : (k a b : ℕ) → a < 2 ^ k → b < 2 ^ k → bit_xor a b < 2 ^ k
bit_xor-lt k a b h g = rw (bit_xor-bitwise a b) (xor_upto-lt a k a b h g)
