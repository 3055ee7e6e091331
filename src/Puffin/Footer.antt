-- ===== src/Puffin/Footer.antt =====
-- The container of src/uc_puffin.cpp:
--   Magic | Blob₁ … Blobₙ | Magic | FooterPayload | FooterPayloadSize (LE) | Flags | Magic
-- An offset into the file is a number, and `drop` gives the bytes from there on. The outer `none`
-- is a read outside the file.
pub mod Bounds
use unity_catalog.Base.{
  ℕ, ◌+◌, ◌-◌, ◌%◌, String, Option, none, some, List, [], ◌∷◌, Bool, true, false, not, ◌&&◌, ◌||◌,
  length, take, drop, if◌then◌else◌, ◌==◌, ltb, leb, str_eq, ℤ, is_neg, to_nat, Bytes, read_bytes,
  load_le, sub64, text_eq, bit_and,
}
use unity_catalog.Result.{ok, err, invalid_input}
use unity_catalog.Json.{Yyjson, str?, arr?}
use unity_catalog.Puffin.Roaring.{Roaring}
use unity_catalog.Puffin.Blob.{
  Checked, invalid, load, require, ◌>>=◌, ◌>>◌, from_blob, Bitmaps, deletion_vector_magic,
}

abbrev pub puffin_magic : Bytes
puffin_magic = b'P' ∷ b'F' ∷ b'A' ∷ b'1' ∷ []

abbrev pub puffin_footer_tail_size : ℕ
puffin_footer_tail_size = 12

abbrev pub puffin_min_file_size : ℕ
puffin_min_file_size = 20

pub record PuffinBlob : Type 0 where
  pub offset : ℕ
  pub length : ℕ

-- `memcmp(p, q, 4) == 0`
pub same_four : Bytes → Bytes → Checked Bool
same_four p q = do bytes ← load (read_bytes 4 p); some (ok (text_eq bytes q))

pub is_bare_deletion_vector : Bytes → Checked Bool
is_bare_deletion_vector file =
    if leb 8 (length file) then same_four (drop 4 file) deletion_vector_magic else some (ok false)

-- The first test of `ParseFooter`.
pub starts_as_container : Bytes → Checked Bool
starts_as_container file =
    if leb puffin_min_file_size (length file) then same_four file puffin_magic else some (ok false)

-- A difference that is negative wraps around to an offset outside the file.
pub validate_footer : Bytes → Checked ℕ
validate_footer file = do
  let size = length file
  trailing ← same_four (drop (sub64 size 4) file) puffin_magic
  require trailing
  flags ← load (load_le 4 (drop (sub64 size 8) file))
  require (bit_and flags 1 == 0)
  require (flags == 0)
  payload_size ← load (load_le 4 (drop (sub64 size 12) file))
  require (leb payload_size (sub64 size puffin_min_file_size))
  let payload_start = sub64 (sub64 size puffin_footer_tail_size) payload_size
  leading ← same_four (drop (sub64 payload_start 4) file) puffin_magic
  require leading
  some (ok payload_start)

module _ (json : Yyjson) where
  open json use {Val, read, is_int, obj_get, get_str, get_sint, items}

  -- `!v || !yyjson_is_int(v)` throws.
  pub int_field : Val → String → Checked ℤ
  int_field v key = elim (obj_get v key) [
    | none ↦ invalid
    | some n ↦ if is_int n then some (ok (get_sint n)) else invalid
  ]

  -- The range that the blob's offset and length must lie in.
  pub check_range : ℤ → ℤ → ℕ → Checked (Option PuffinBlob)
  check_range raw_offset raw_length blob_section_end = do
    require (not (is_neg raw_offset || is_neg raw_length))
    let offset = to_nat raw_offset
    let size = to_nat raw_length
    require (
        not (ltb offset 4 || ltb blob_section_end size || ltb (sub64 blob_section_end size) offset))
    some (ok (some (record { offset = offset; length = size })))

  parse_range : Val → ℕ → Checked (Option PuffinBlob)
  parse_range blob_val blob_section_end = do
    raw_offset ← int_field blob_val "offset"
    raw_length ← int_field blob_val "length"
    check_range raw_offset raw_length blob_section_end

  -- `TryParseBlobMetadata`; a blob of another type is `none`.
  pub try_parse_blob_metadata : Val → ℕ → Checked (Option PuffinBlob)
  try_parse_blob_metadata blob_val blob_section_end = elim (str? json (obj_get blob_val "type")) [
    | none ↦ invalid
    | some blob_type ↦
        if str_eq blob_type "deletion-vector-v1"
        then parse_range blob_val blob_section_end
        else some (ok none)
  ]

  abbrev pub push : Option PuffinBlob → List PuffinBlob → List PuffinBlob
  push none blobs = blobs
  push (some b) blobs = b ∷ blobs

  -- The loop of `ParseFileMetadata`.
  pub parse_blobs : List Val → ℕ → Checked (List PuffinBlob)
  parse_blobs [] blob_section_end = some (ok [])
  parse_blobs (v ∷ vs) blob_section_end = do
    blob ← try_parse_blob_metadata v blob_section_end
    rest ← parse_blobs vs blob_section_end
    some (ok (push blob rest))

  pub parse_file_metadata : Bytes → ℕ → Checked (List PuffinBlob)
  parse_file_metadata payload blob_section_end = elim (read payload) [
    | none ↦ invalid
    | some root ↦ elim (arr? json (obj_get root "blobs")) [
      | none ↦ invalid
      | some blobs_val ↦ parse_blobs (items blobs_val) blob_section_end
    ]
  ]

  -- A container, with its footer.
  pub parse_container : Bytes → Checked (List PuffinBlob)
  parse_container file = do
    payload_start ← validate_footer file
    let payload_size = sub64 (sub64 (length file) puffin_footer_tail_size) payload_start
    let blob_section_end = sub64 payload_start 4
    payload ← load (read_bytes payload_size (drop payload_start file))
    parse_file_metadata payload blob_section_end

  -- A lone blob with no container.
  parse_bare : Bytes → Checked (List PuffinBlob)
  parse_bare file = do
    bare ← is_bare_deletion_vector file
    require bare
    some (ok (record { offset = 0; length = length file } ∷ []))

  pub parse_footer : Bytes → Checked (List PuffinBlob)
  parse_footer file = do
    container ← starts_as_container file
    if container then parse_container file else parse_bare file

-- `DecodeBlob`: the bytes that `FromBlob` is given; `none` where they do not all lie in the file.
pub decode_blob : (roaring : Roaring) → Bytes → PuffinBlob → Checked (Bitmaps roaring)
decode_blob roaring file blob = do
  bytes ← load (read_bytes blob.length (drop blob.offset file))
  from_blob roaring bytes
