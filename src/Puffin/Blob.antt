-- ===== src/Puffin/Blob.antt =====
-- `UCDeletionVectorData` of src/uc_puffin.cpp: a `deletion-vector-v1` blob is
--   vector_size (4, BE) | magic (4) | n_bitmaps (8, LE) | {key (4, LE) | bitmap}* | CRC32 (4, BE)
-- A pointer into the blob is the list of the bytes that it leaves; the outer `none` is a read
-- past the end of the blob.
pub mod Safe
pub mod RoundTrip
pub mod Positions
use unity_catalog.Base.{
  ℕ, zero, suc, ◌+◌, ◌-◌, ◌*◌, ◌%◌, ◌^◌, min, Option, none, some, List, [], ◌∷◌, ◌++◌, Bool, true,
  false, ◌&&◌, length, take, drop, if◌then◌else◌, ◌==◌, ltb, leb, bit_or, Bytes, read_bytes,
  load_le, load_be32, text_eq,
}
use unity_catalog.Result.{Result, ok, err, invalid_input, std_exception}
use unity_catalog.Puffin.Roaring.{Roaring}
use unity_catalog.Puffin.Crc.{crc32}

abbrev pub deletion_vector_magic : Bytes
deletion_vector_magic = 0xD1 ∷ 0xD3 ∷ 0x39 ∷ 0x64 ∷ []

-- `uint32_t` subtraction.
abbrev pub sub32 : ℕ → ℕ → ℕ
sub32 a b = (a + 2 ^ 32 - b % 2 ^ 32) % 2 ^ 32

-- A read past the end, or what the code returns or throws.
abbrev pub Checked {ℓ} : Type ℓ → Type ℓ
Checked A = Option (Result A)

abbrev pub invalid {ℓ} : {A : Type ℓ} → Checked A
invalid = some (err invalid_input)

infixl 5 ◌>>=◌ ◌>>◌
unfoldable pub ◌>>=◌ {ℓ κ} : {A : Type ℓ} {B : Type κ} → Checked A → (A → Checked B) → Checked B
none >>= f = none
some (ok a) >>= f = f a
some (err e) >>= f = some (err e)

abbrev pub ◌>>◌ {ℓ} : {B : Type ℓ} → Checked (Unit {0}) → Checked B → Checked B
m >> k = m >>= λ _. k

-- A load, which does not throw.
unfoldable pub load {ℓ} : {A : Type ℓ} → Option A → Checked A
load none = none
load (some a) = some (ok a)

-- `if (!b) throw InvalidInputException(…)`
unfoldable pub require : Bool → Checked (Unit {0})
require true = some (ok tt)
require false = invalid

module _ (roaring : Roaring) where
  open roaring use {Bitmap, deserialize_size, read_safe, values}

  -- `unordered_map<int32_t, Roaring>`; a key is its bit pattern.
  abbrev pub Bitmaps : Type 0
  Bitmaps = List (ℕ × Bitmap)

  -- `emplace` keeps what is stored under the key.
  pub emplace : ℕ → Bitmap → Bitmaps → Bitmaps
  emplace key b [] = (key, b) ∷ []
  emplace key b ((k, c) ∷ m) = if k == key then (k, c) ∷ m else (k, c) ∷ emplace key b m

  pub or_throw : Option Bitmap → Checked Bitmap
  or_throw none = some (err std_exception)
  or_throw (some b) = some (ok b)

  -- The loop over the bitmaps, with the rounds that are left; it returns where it stopped.
  pub read_bitmaps : ℕ → Bytes → ℕ → Bitmaps → Checked (Bytes × Bitmaps)
  read_bitmaps zero p vector_size bitmaps = some (ok (p, bitmaps))
  read_bitmaps (suc n) p vector_size bitmaps = do
    require (leb 4 (length p))
    key ← load (load_le 4 p)
    let payload = drop 4 p
    let left = sub32 vector_size 4
    header ← load (read_bytes (min left (length payload)) payload)
    let bitmap_size = deserialize_size header
    require (ltb 0 bitmap_size && leb bitmap_size (length payload))
    bytes ← load (read_bytes bitmap_size payload)
    bitmap ← or_throw (read_safe bytes)
    read_bitmaps n (drop bitmap_size payload) (sub32 left bitmap_size) (emplace key bitmap bitmaps)

  -- The checks behind the bitmaps, where `p` is left of what began as `checksummed`.
  pub check_sum : Bytes → Bytes → Bitmaps → Checked Bitmaps
  check_sum checksummed p bitmaps = do
    require (length p == 4)
    stored ← load (load_be32 p)
    summed ← load (read_bytes (length checksummed - length p) checksummed)
    crc ← load (crc32 summed)
    require (crc == stored)
    some (ok bitmaps)

  pub from_blob : Bytes → Checked Bitmaps
  from_blob blob = do
    require (leb 20 (length blob))
    vector_size ← load (load_be32 blob)
    let checksummed = drop 4 blob
    magic ← load (read_bytes 4 checksummed)
    require (text_eq magic deletion_vector_magic)
    let counted = drop 4 checksummed
    require (leb 8 (length counted))
    amount ← load (load_le 8 counted)
    -- an `int64_t` that is negative
    require (ltb amount (2 ^ 63))
    (p, bitmaps) ← read_bitmaps amount (drop 8 counted) (sub32 (sub32 vector_size 4) 8) []
    check_sum checksummed p bitmaps

  -- `static_cast<idx_t>` of an `int32_t`.
  pub sign_extend : ℕ → ℕ
  sign_extend key = if ltb key (2 ^ 31) then key else key + (2 ^ 64 - 2 ^ 32)

  -- The callback of `ToSet`, for each value of one bitmap.
  pub positions_of : ℕ → List ℕ → List ℕ
  unfolding sign_extend
  positions_of key [] = []
  positions_of key (v ∷ vs) = bit_or (sign_extend key * 2 ^ 32 % 2 ^ 64) v ∷ positions_of key vs

  -- `ToSet`, as the list of what it inserts.
  pub to_set : Bitmaps → List ℕ
  unfolding positions_of
  to_set [] = []
  to_set ((key, bitmap) ∷ rest) = positions_of key (values bitmap) ++ to_set rest
