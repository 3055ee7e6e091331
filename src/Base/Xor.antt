-- ===== src/Base/Xor.antt =====
-- `^` and `&` of C++ on unsigned words, digit by digit.
use Prim.Native.Nat.{
  ℕ, zero, suc, ◌+◌, ◌*◌, ◌/◌, ◌%◌, ◌^◌, ◌≤◌, ◌<◌, min, bit_and, bit_xor, digits, bit_and-bitwise,
  bit_xor-bitwise, differ,
}
use mathlib.Core.Path.{◌≡◌, refl, sym, ap}
use native.Mathlib.Omega.{arith}
use native.Mathlib.Nat.{pow-suc, mul_assoc}

differ-parity : (x y : ℕ) → x < 2 → y < 2 → differ x y ≡ (x + y) % 2
differ-parity zero y h g = omega arith
differ-parity (suc zero) zero h g = refl
differ-parity (suc zero) (suc zero) h g = refl
differ-parity (suc zero) (suc (suc y)) h g = absurd (omega arith)
differ-parity (suc (suc x)) y h g = absurd (omega arith)

-- `bit_xor` by its binary digits, at most `n` of them.
abbrev xor_upto : ℕ → ℕ → ℕ → ℕ
xor_upto n a b = digits (λ y. y) differ n a b

xor_upto_fuel : (n m a b : ℕ) → a ≤ n → a ≤ m → xor_upto n a b ≡ xor_upto m a b
xor_upto_fuel zero zero a b p q = refl
xor_upto_fuel zero (suc m) zero b p q = refl
xor_upto_fuel zero (suc m) (suc a) b p q = absurd (omega arith)
xor_upto_fuel (suc n) zero zero b p q = refl
xor_upto_fuel (suc n) zero (suc a) b p q = absurd (omega arith)
xor_upto_fuel (suc n) (suc m) zero b p q = refl
xor_upto_fuel (suc n) (suc m) (suc a) b p q =
    omega (arith, xor_upto_fuel n m (suc a / 2) (b / 2) (omega arith) (omega arith))

zero-bit_xor : (b : ℕ) → bit_xor 0 b ≡ b
zero-bit_xor b = bit_xor-bitwise 0 b

xor_digit : (x y : ℕ) → bit_xor x y ≡ (x + y) % 2 + 2 * bit_xor (x / 2) (y / 2)
xor_digit zero y = omega (arith, zero-bit_xor (y / 2), zero-bit_xor y)
xor_digit (suc x) y =
    let half = suc x / 2 in
    let enough = xor_upto_fuel x half half (y / 2) (omega arith) (omega arith) in
    let low = differ-parity (suc x % 2) (y % 2) (omega arith) (omega arith) in
    omega (arith, low, enough, bit_xor-bitwise half (y / 2), bit_xor-bitwise (suc x) y)

xor_zero_upto : (n x : ℕ) → x ≤ n → bit_xor x 0 ≡ x
xor_zero_upto n zero h = zero-bit_xor 0
xor_zero_upto zero (suc x) h = absurd (omega arith)
xor_zero_upto (suc n) (suc x) h =
    omega (arith, xor_digit (suc x) 0, xor_zero_upto n (suc x / 2) (omega arith))

pub bit_xor-zero : (x : ℕ) → bit_xor x 0 ≡ x
bit_xor-zero x = xor_zero_upto x x (omega arith)

pub bit_xor-parity : (x y : ℕ) → bit_xor x y % 2 ≡ (x + y) % 2
bit_xor-parity x y = omega (arith, xor_digit x y)

pub bit_xor-half : (x y : ℕ) → bit_xor x y / 2 ≡ bit_xor (x / 2) (y / 2)
bit_xor-half x y = omega (arith, xor_digit x y)

assoc_upto : (n a b c : ℕ) → a ≤ n → bit_xor a (bit_xor b c) ≡ bit_xor (bit_xor a b) c
assoc_upto n zero b c h =
    omega (arith, zero-bit_xor (bit_xor b c), ap (λ t. bit_xor t c) (zero-bit_xor b))
assoc_upto zero (suc a) b c h = absurd (omega arith)
assoc_upto (suc n) (suc a) b c h =
    let ih = assoc_upto n (suc a / 2) (b / 2) (c / 2) (omega arith) in
    omega (
      arith,
      ih,
      xor_digit (suc a) (bit_xor b c),
      xor_digit (bit_xor (suc a) b) c,
      bit_xor-parity b c,
      bit_xor-parity (suc a) b,
      ap (bit_xor (suc a / 2)) (bit_xor-half b c),
      ap (λ t. bit_xor t (c / 2)) (bit_xor-half (suc a) b),
    )

pub bit_xor_assoc : (a b c : ℕ) → bit_xor a (bit_xor b c) ≡ bit_xor (bit_xor a b) c
bit_xor_assoc a b c = assoc_upto a a b c (omega arith)

-- Two words with no bit in common, one of them below the shift.
pub bit_xor-shifted : (k v a : ℕ) → v < 2 ^ k → bit_xor v (a * 2 ^ k) ≡ v + a * 2 ^ k
bit_xor-shifted zero v a h =
    let none_left : v ≡ 0 = omega arith in rw none_left (omega (arith, zero-bit_xor (a * 2 ^ 0)))
bit_xor-shifted (suc k) v a h =
    let double : a * 2 ^ suc k ≡ a * 2 ^ k * 2 = rw pow-suc (sym (mul_assoc a (2 ^ k) 2)) in
    let half : v / 2 < 2 ^ k = omega (arith, pow-suc 2 k) in
    let back : a * 2 ^ k * 2 / 2 ≡ a * 2 ^ k = omega arith in
    rw double (
      omega (
        arith,
        xor_digit v (a * 2 ^ k * 2),
        ap (bit_xor (v / 2)) back,
        bit_xor-shifted k (v / 2) a half,
      ))

abbrev and_upto : ℕ → ℕ → ℕ → ℕ
and_upto n a b = digits (λ y. 0) min n a b

and_upto_fuel : (n m a b : ℕ) → a ≤ n → a ≤ m → and_upto n a b ≡ and_upto m a b
and_upto_fuel zero zero a b p q = refl
and_upto_fuel zero (suc m) zero b p q = refl
and_upto_fuel zero (suc m) (suc a) b p q = absurd (omega arith)
and_upto_fuel (suc n) zero zero b p q = refl
and_upto_fuel (suc n) zero (suc a) b p q = absurd (omega arith)
and_upto_fuel (suc n) (suc m) zero b p q = refl
and_upto_fuel (suc n) (suc m) (suc a) b p q =
    omega (arith, and_upto_fuel n m (suc a / 2) (b / 2) (omega arith) (omega arith))

zero-bit_and : (b : ℕ) → bit_and 0 b ≡ 0
zero-bit_and b = bit_and-bitwise 0 b

and_digit : (x y : ℕ) → bit_and x y ≡ min (x % 2) (y % 2) + 2 * bit_and (x / 2) (y / 2)
and_digit zero y = omega (arith, zero-bit_and (y / 2), zero-bit_and y)
and_digit (suc x) y =
    let half = suc x / 2 in
    let enough = and_upto_fuel x half half (y / 2) (omega arith) (omega arith) in
    omega (arith, enough, bit_and-bitwise half (y / 2), bit_and-bitwise (suc x) y)

and_zero_upto : (n x : ℕ) → x ≤ n → bit_and x 0 ≡ 0
and_zero_upto n zero h = zero-bit_and 0
and_zero_upto zero (suc x) h = absurd (omega arith)
and_zero_upto (suc n) (suc x) h =
    omega (arith, and_digit (suc x) 0, and_zero_upto n (suc x / 2) (omega arith))

-- A mask of ones.
pub bit_and-one : (x : ℕ) → bit_and x 1 ≡ x % 2
bit_and-one x = omega (arith, and_digit x 1, and_zero_upto (x / 2) (x / 2) (omega arith))

and_nibble : (x : ℕ) → bit_and x 15 ≡ x % 16
and_nibble x = omega (
  arith,
  and_digit x 15,
  and_digit (x / 2) 7,
  and_digit (x / 2 / 2) 3,
  bit_and-one (x / 2 / 2 / 2),
)

pub bit_and-byte : (x : ℕ) → bit_and x 255 ≡ x % 256
bit_and-byte x = omega (
  arith,
  and_digit x 255,
  and_digit (x / 2) 127,
  and_digit (x / 2 / 2) 63,
  and_digit (x / 2 / 2 / 2) 31,
  and_nibble (x / 2 / 2 / 2 / 2),
)
