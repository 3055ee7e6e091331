-- ===== src/Puffin/Crc/Serial.antt =====
-- `CRC32` of src/uc_puffin.cpp is the checksum that takes its input bit by bit, without a table.
use unity_catalog.Base.{
  ℕ, zero, suc, ◌+◌, ◌*◌, ◌/◌, ◌%◌, ◌^◌, ◌<◌, ◌≡◌, refl, sym, ap, ◌∙◌, Bool-cases, inl, inr, [],
  ◌∷◌, All, some, arith, get_elem?, if◌then◌else◌, ◌==◌, bit_xor, bit_xor-parity, bit_xor-half,
  bit_xor_assoc, bit_xor-zero, bit_xor-shifted, bit_and-one, bit_and-byte, Bytes,
}
use unity_catalog.Puffin.Crc.{divide_bits, init_table, crc_table, update, crc32}

-- The register after one bit: it is shifted out to the right, and where it was one the reflected
-- polynomial is subtracted.
abbrev shift_bit : ℕ → ℕ
shift_bit c = if c % 2 == 0 then c / 2 else bit_xor 0xEDB8_8320 (c / 2)

pub shift_bits : ℕ → ℕ → ℕ
shift_bits zero c = c
shift_bits (suc j) c = shift_bits j (shift_bit c)

-- The register after the bytes, each of eight bits.
pub register : Bytes → ℕ → ℕ
register [] c = c
register (d ∷ rest) c = register rest (shift_bits 8 (bit_xor c d))

divide_bits-shift_bits : (j c : ℕ) → divide_bits j c ≡ shift_bits j c
unfolding divide_bits shift_bits
divide_bits-shift_bits zero c = refl
divide_bits-shift_bits (suc j) c = rw (bit_and-one c) (divide_bits-shift_bits j (shift_bit c))

-- What stands above the bits to be shifted out moves down and is otherwise left alone.
shift_bit-above : (v a : ℕ) → shift_bit (bit_xor v (a * 2)) ≡ bit_xor (shift_bit v) a
shift_bit-above v a =
    let parity : bit_xor v (a * 2) % 2 ≡ v % 2 = omega (arith, bit_xor-parity v (a * 2)) in
    let down : a * 2 / 2 ≡ a = omega arith in
    let half : bit_xor v (a * 2) / 2 ≡ bit_xor (v / 2) a =
      bit_xor-half v (a * 2) ∙ ap (bit_xor (v / 2)) down in
    elim (Bool-cases (v % 2 == 0)) [
      | inl e ↦ rw (parity, half, e) refl
      | inr e ↦ rw (parity, half, e) (bit_xor_assoc 0xEDB8_8320 (v / 2) a)
    ]

shift_bits-above : (j v a : ℕ) → shift_bits j (bit_xor v (a * 2 ^ j)) ≡ bit_xor (shift_bits j v) a
unfolding shift_bits
shift_bits-above zero v a = let one : a * 2 ^ 0 ≡ a = omega arith in rw one refl
shift_bits-above (suc j) v a =
    let double : a * 2 ^ suc j ≡ a * 2 ^ j * 2 = grind arith in
    rw (double, shift_bit-above v (a * 2 ^ j)) (shift_bits-above j (shift_bit v) a)

-- Eight bits at once, by what the low byte alone comes to.
byte_at_once : (x : ℕ) → shift_bits 8 x ≡ bit_xor (shift_bits 8 (x % 256)) (x / 256)
byte_at_once x =
    let split : x ≡ bit_xor (x % 256) (x / 256 * 2 ^ 8) =
      omega (arith, bit_xor-shifted 8 (x % 256) (x / 256) (omega arith)) in
    ap (shift_bits 8) split ∙ shift_bits-above 8 (x % 256) (x / 256)

elem-init_table : (n i j : ℕ) → j < n → get_elem? (init_table n i) j ≡ some (divide_bits 8 (i + j))
unfolding init_table
elem-init_table zero i j h = absurd (omega arith)
elem-init_table (suc n) i zero h = let same : i + 0 ≡ i = omega arith in rw same refl
elem-init_table (suc n) i (suc j) h =
    let same : i + suc j ≡ i + 1 + j = omega arith in
    rw same (elem-init_table n (i + 1) j (omega arith))

entry : (i : ℕ) → i < 256 → get_elem? crc_table i ≡ some (shift_bits 8 i)
unfolding crc_table
entry i h =
    let same : 0 + i ≡ i = omega arith in
    elem-init_table 256 0 i h ∙ ap some (ap (divide_bits 8) same ∙ divide_bits-shift_bits 8 i)

-- A byte reaches the low byte of the register only.
above_byte : (c d : ℕ) → d < 256 → bit_xor c d / 256 ≡ c / 256
above_byte c d h =
    let low : d / 2 / 2 / 2 / 2 / 2 / 2 / 2 / 2 ≡ 0 = omega arith in
    let halved : bit_xor c d / 256
        ≡ bit_xor (c / 2 / 2 / 2 / 2 / 2 / 2 / 2 / 2) (d / 2 / 2 / 2 / 2 / 2 / 2 / 2 / 2) =
      omega (
        arith,
        bit_xor-half c d,
        bit_xor-half (c / 2) (d / 2),
        bit_xor-half (c / 2 / 2) (d / 2 / 2),
        bit_xor-half (c / 2 / 2 / 2) (d / 2 / 2 / 2),
        bit_xor-half (c / 2 / 2 / 2 / 2) (d / 2 / 2 / 2 / 2),
        bit_xor-half (c / 2 / 2 / 2 / 2 / 2) (d / 2 / 2 / 2 / 2 / 2),
        bit_xor-half (c / 2 / 2 / 2 / 2 / 2 / 2) (d / 2 / 2 / 2 / 2 / 2 / 2),
        bit_xor-half (c / 2 / 2 / 2 / 2 / 2 / 2 / 2) (d / 2 / 2 / 2 / 2 / 2 / 2 / 2),
      ) in
    let alone = ap (bit_xor (c / 2 / 2 / 2 / 2 / 2 / 2 / 2 / 2)) low in
    omega (arith, halved, alone, bit_xor-zero (c / 2 / 2 / 2 / 2 / 2 / 2 / 2 / 2))

update-register :
    (bytes : Bytes) (c : ℕ) → All (λ d. d < 256) bytes → update bytes c ≡ some (register bytes c)
unfolding update register
update-register [] c h = refl
update-register (d ∷ rest) c h =
    let x = bit_xor c d in
    let found = entry (x % 256) (omega arith) in
    let next : bit_xor (shift_bits 8 (x % 256)) (c / 2 ^ 8) ≡ shift_bits 8 x =
      ap (bit_xor (shift_bits 8 (x % 256))) (sym (above_byte c d h.0)) ∙ sym (byte_at_once x) in
    rw (bit_and-byte x, found, update, next) (update-register rest (shift_bits 8 x) h.1)

-- The checksum of bytes, which goes by the table, is that of a register of 32 ones which takes them
-- bit by bit, the lowest bit first, and is inverted at the end.
pub crc32-register :
    (bytes : Bytes)
    → All (λ d. d < 256) bytes
    → crc32 bytes ≡ some (bit_xor (register bytes 0xFFFF_FFFF) 0xFFFF_FFFF)
unfolding crc32
crc32-register bytes h = rw (update-register bytes 0xFFFF_FFFF h, crc32) refl
