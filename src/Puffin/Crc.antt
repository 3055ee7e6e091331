-- ===== src/Puffin/Crc.antt =====
-- `CRC32` of src/uc_puffin.cpp: the table and the table-driven update.
pub mod Bounds
pub mod Serial
use unity_catalog.Base.{
  ℕ, zero, suc, ◌+◌, ◌/◌, ◌^◌, ◌≡◌, refl, List, [], ◌∷◌, get_elem?, Option, none, some,
  if◌then◌else◌, ◌==◌, bit_and, bit_xor, Bytes, lit,
}

-- The inner loop of `InitTable`, with the rounds that are left.
pub divide_bits : ℕ → ℕ → ℕ
divide_bits zero c = c
divide_bits (suc j) c =
    divide_bits j (if bit_and c 1 == 0 then c / 2 else bit_xor 0xEDB8_8320 (c / 2))

-- `InitTable` from entry `i` on, with the entries that are left.
pub init_table : ℕ → ℕ → List ℕ
unfolding divide_bits
init_table zero i = []
init_table (suc n) i = divide_bits 8 i ∷ init_table n (i + 1)

pub crc_table : List ℕ
unfolding init_table
crc_table = init_table 256 0

-- `Update`; an index outside the table would be undefined behaviour, `none`.
pub update : Bytes → ℕ → Option ℕ
update [] crc = some crc
update (d ∷ rest) crc = elim (get_elem? crc_table (bit_and (bit_xor crc d) 0xFF)) [
  | none ↦ none
  | some entry ↦ update rest (bit_xor entry (crc / 2 ^ 8))
]

-- The constructor, `Update` over `data`, and `GetValue`.
unfoldable pub crc32 : Bytes → Option ℕ
unfolding update crc_table
crc32 bytes = elim (update bytes 0xFFFF_FFFF) [
  | none ↦ none
  | some crc ↦ some (bit_xor crc 0xFFFF_FFFF)
]

check_value : crc32 (lit "123456789") ≡ some 0xCBF4_3926
unfolding crc32 lit
check_value = refl
