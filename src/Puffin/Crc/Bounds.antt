-- ===== src/Puffin/Crc/Bounds.antt =====
-- `CRC32` of src/uc_puffin.cpp stays within its table and within 32 bits.
use unity_catalog.Base.{
  ℕ, zero, suc, ◌+◌, ◌/◌, ◌^◌, ◌≤◌, ◌<◌, ◌≡◌, refl, Bool, true, ◌&&◌, List, [], ◌∷◌, length,
  get_elem?, some, arith, ltb, bit_and, bit_xor, bit_and-le, bit_xor-lt, Bytes,
}
use unity_catalog.Puffin.Crc.{init_table, crc_table, update, crc32}

all_below : ℕ → List ℕ → Bool
all_below n [] = true
all_below n (x ∷ xs) = ltb x n && all_below n xs

length-init_table : (n i : ℕ) → length (init_table n i) ≡ n
unfolding init_table
length-init_table zero i = refl
length-init_table (suc n) i = omega (arith, length-init_table n (i + 1))

elem_total :
    (xs : List ℕ) (n i : ℕ)
    → all_below n xs ≡ true
    → i < length xs
    → (v : ℕ) × (get_elem? xs i ≡ some v) × (v < n)
unfolding all_below
elem_total [] n i a h = absurd (omega arith)
elem_total (x ∷ xs) n zero a h = (x, refl, ground arith)
elem_total (x ∷ xs) n (suc i) a h = elem_total xs n i (ground arith) (omega arith)

crc_table-words : all_below (2 ^ 32) crc_table ≡ true
unfolding all_below crc_table
crc_table-words = refl

entry_total : (i : ℕ) → i ≤ 255 → (v : ℕ) × (get_elem? crc_table i ≡ some v) × (v < 2 ^ 32)
entry_total i h =
    elem_total crc_table (2 ^ 32) i crc_table-words
      (unfold crc_table in omega (arith, length-init_table 256 0))

update_total :
    (bytes : Bytes) (crc : ℕ) → crc < 2 ^ 32 → (v : ℕ) × (update bytes crc ≡ some v) × (v < 2 ^ 32)
unfolding update
update_total [] crc h = (crc, refl, h)
update_total (d ∷ rest) crc h =
    let (e, q, l) = entry_total (bit_and (bit_xor crc d) 0xFF) (bit_and-le _ 0xFF) in
    let (v, r, m) =
      update_total rest (bit_xor e (crc / 2 ^ 8)) (bit_xor-lt 32 e (crc / 2 ^ 8) l (omega arith)) in
    (v, rw (q, update) r, m)

-- Every update finds its table entry, and the checksum is a 32-bit word.
pub crc32_total : (bytes : Bytes) → (v : ℕ) × (crc32 bytes ≡ some v) × (v < 2 ^ 32)
unfolding crc32
crc32_total bytes =
    let (v, r, m) = update_total bytes 0xFFFF_FFFF (omega arith) in
    (bit_xor v 0xFFFF_FFFF, rw (r, crc32), bit_xor-lt 32 v 0xFFFF_FFFF m (omega arith))
