-- ===== src/Base/Buffers.antt =====
-- Buffers of bytes: a pointer into one is the list of the bytes from there to its end, so
-- `p + n > end` is `length p < n`. A load past the end, which is undefined behaviour, is `none`.
use Prim.Native.Nat.{ℕ, zero, suc, ◌+◌, ◌*◌, ◌/◌, ◌%◌, ◌^◌, ◌≤◌, ◌<◌}
use mathlib.Core.Path.{◌≡◌, refl, ap}
use mathlib.Core.Option.{Option, none, some}
use mathlib.Core.List.{List, [], ◌∷◌, ◌++◌}
use native.Mathlib.Omega.{arith}
use native.Mathlib.Nat.{pow-suc}
use unity_catalog.Base.Lists.{length, take}

abbrev pub Bytes : Type 0
Bytes = List ℕ

-- The first `n` bytes.
unfoldable pub read_bytes : ℕ → Bytes → Option Bytes
read_bytes zero p = some []
read_bytes (suc n) [] = none
read_bytes (suc n) (b ∷ p) = elim (read_bytes n p) [ none ↦ none | some bs ↦ some (b ∷ bs) ]

unfoldable pub le_value : Bytes → ℕ
le_value [] = 0
le_value (b ∷ bs) = b + 256 * le_value bs

-- `Load<uintN_t>` of `n` little-endian bytes.
unfoldable pub load_le : ℕ → Bytes → Option ℕ
load_le n p = elim (read_bytes n p) [ none ↦ none | some bs ↦ some (le_value bs) ]

-- The `n` little-endian bytes of a number.
unfoldable pub store_le : ℕ → ℕ → Bytes
store_le zero v = []
store_le (suc n) v = (v % 256) ∷ store_le n (v / 256)

pub length-store_le : (n v : ℕ) → length (store_le n v) ≡ n
unfolding store_le
length-store_le zero v = refl
length-store_le (suc n) v = omega (arith, length-store_le n (v / 256))

pub read_bytes-append : (xs p : Bytes) → read_bytes (length xs) (xs ++ p) ≡ some xs
unfolding read_bytes
read_bytes-append [] p = refl
read_bytes-append (x ∷ xs) p = ground (arith, read_bytes-append xs p)

pub read_bytes_total :
    (n : ℕ) (p : Bytes) → n ≤ length p → (bs : Bytes) × (read_bytes n p ≡ some bs)
unfolding read_bytes
read_bytes_total zero p h = ([], refl)
read_bytes_total (suc n) [] h = absurd (omega arith)
read_bytes_total (suc n) (b ∷ p) h =
    let (bs, e) = read_bytes_total n p (omega arith) in (b ∷ bs, ground arith)

pub read_bytes-take : (n : ℕ) (p : Bytes) → n ≤ length p → read_bytes n p ≡ some (take n p)
unfolding read_bytes
read_bytes-take zero p h = refl
read_bytes-take (suc n) [] h = absurd (omega arith)
read_bytes-take (suc n) (b ∷ p) h = ground (arith, read_bytes-take n p (omega arith))

pub load_le_total : (n : ℕ) (p : Bytes) → n ≤ length p → (v : ℕ) × (load_le n p ≡ some v)
unfolding load_le
load_le_total n p h = let (bs, e) = read_bytes_total n p h in (le_value bs, ground arith)

abbrev pub be_from : ℕ → Bytes → ℕ
be_from acc [] = acc
be_from acc (b ∷ bs) = be_from (acc * 256 + b) bs

-- `BSwap(Load<uint32_t>(p))`: four big-endian bytes.
unfoldable pub load_be32 : Bytes → Option ℕ
load_be32 p = elim (read_bytes 4 p) [ none ↦ none | some bs ↦ some (be_from 0 bs) ]

pub load_be32_total : (p : Bytes) → 4 ≤ length p → (v : ℕ) × (load_be32 p ≡ some v)
unfolding load_be32
load_be32_total p h = let (bs, e) = read_bytes_total 4 p h in (be_from 0 bs, ground arith)

-- The four big-endian bytes of a `uint32_t`.
unfoldable pub store_be32 : ℕ → Bytes
store_be32 v = (v / 2 ^ 24 % 256) ∷ (v / 2 ^ 16 % 256) ∷ (v / 2 ^ 8 % 256) ∷ (v % 256) ∷ []

pub load_be32-store_be32 : (v : ℕ) (p : Bytes) → v < 2 ^ 32 → load_be32 (store_be32 v ++ p) ≡ some v
unfolding load_be32 store_be32 read_bytes
load_be32-store_be32 v p h = ap some (omega arith)

le_value-store_le : (n v : ℕ) → v < 256 ^ n → le_value (store_le n v) ≡ v
unfolding le_value store_le
le_value-store_le zero v h = omega arith
le_value-store_le (suc n) v h =
    omega (arith, le_value-store_le n (v / 256) (omega (arith, pow-suc 256 n)))

pub load_le-store_le : (n v : ℕ) (p : Bytes) → v < 256 ^ n → load_le n (store_le n v ++ p) ≡ some v
unfolding load_le
load_le-store_le n v p h =
    let bytes : read_bytes n (store_le n v ++ p) ≡ some (store_le n v) =
      rw (length-store_le n v) at (read_bytes-append (store_le n v) p) in
    ground (arith, bytes, le_value-store_le n v h)
