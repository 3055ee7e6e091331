-- ===== src/Tests/Puffin.antt =====
-- The theorems on deletion vectors and puffin files at concrete inputs: bitmaps of one value each,
-- in a format of one byte.
use unity_catalog.Base.{
  bit_xor, ℕ, ◌≡◌, refl, ◌≤◌, ◌+◌, Option, none, some, [], ◌∷◌, ◌++◌, All, length, lit, String,
  true, str_eq, if◌then◌else◌, pos, arith, Bytes, store_le, store_be32,
}
use unity_catalog.Result.{ok}
use unity_catalog.Json.{Yyjson, str, arr, num, obj}
use unity_catalog.Puffin.Roaring.{Roaring}
use unity_catalog.Puffin.Crc.{crc32}
use unity_catalog.Puffin.Crc.Serial.{register, crc32-register}
use unity_catalog.Puffin.Blob.{from_blob, to_set, Bitmaps}
use unity_catalog.Puffin.Blob.Safe.{IsSafe, from_blob-IsSafe}
use unity_catalog.Puffin.Blob.RoundTrip.{Serializer, encode, from_blob-encode}
use unity_catalog.Puffin.Blob.Positions.{buckets, to_set-buckets}
use unity_catalog.Puffin.Footer.{parse_footer, decode_blob, puffin_magic}
use unity_catalog.Puffin.Footer.Bounds.{Ensures, parse_footer-Ensures}

abbrev pub one_byte : Roaring
one_byte = record {
  Bitmap = ℕ;
  deserialize_size = λ b. elim b [ [] ↦ 0 | x ∷ rest ↦ 1 ];
  read_safe = λ b. elim b [ [] ↦ none | x ∷ rest ↦ some x ];
  values = λ x. x ∷ [];
}

abbrev pub one_byte_writer : Serializer one_byte
one_byte_writer = record {
  write = λ x. x ∷ [];
  not_empty = λ x. omega arith;
  size_lem = λ x rest. refl;
  read_lem = λ x. refl;
}

abbrev pub two_bitmaps : Bitmaps one_byte
two_bitmaps = (0, 7) ∷ (4_294_967_295, 200) ∷ []

crc32-register_example :
    crc32 (49 ∷ 50 ∷ 51 ∷ [])
    ≡ some (bit_xor (register (49 ∷ 50 ∷ 51 ∷ []) 0xFFFF_FFFF) 0xFFFF_FFFF)
crc32-register_example =
    crc32-register (49 ∷ 50 ∷ 51 ∷ []) (omega arith, (omega arith, (omega arith, tt)))

abbrev pub two_bitmaps_crc : ℕ
two_bitmaps_crc = 1_361_847_659

abbrev pub two_bitmaps_blob : Bytes
two_bitmaps_blob = encode one_byte one_byte_writer two_bitmaps two_bitmaps_crc

from_blob-IsSafe_example : IsSafe (from_blob one_byte two_bitmaps_blob)
from_blob-IsSafe_example = from_blob-IsSafe one_byte two_bitmaps_blob

from_blob-encode_example : from_blob one_byte two_bitmaps_blob ≡ some (ok two_bitmaps)
unfolding crc32 store_le store_be32
from_blob-encode_example =
    from_blob-encode one_byte one_byte_writer two_bitmaps two_bitmaps_crc
      (omega arith, tt, (omega arith, (refl, tt), tt)) (omega arith) refl

to_set-buckets_example : to_set one_byte two_bitmaps ≡ buckets one_byte two_bitmaps
to_set-buckets_example =
    to_set-buckets one_byte two_bitmaps
      ((omega arith, (omega arith, tt)), ((omega arith, (omega arith, tt)), tt))

-- A footer that lists one blob.
data Node : Type 0 where
  root blobs blob blob_type blob_offset blob_length : Node

abbrev blob_field : String → Option Node
blob_field key =
    if str_eq key "type"
    then some blob_type
    else if str_eq key "offset"
    then some blob_offset
    else if str_eq key "length"
    then some blob_length
    else none

abbrev one_blob_json : Yyjson
one_blob_json = record {
  Val = Node;
  read = λ bytes. some root;
  kind = λ v. elim v [ root ↦ obj | blobs ↦ arr | blob ↦ obj | blob_type ↦ str | _ ↦ num ];
  is_int = λ v. true;
  obj_get = λ v key. elim v [ root ↦ some blobs | blob ↦ blob_field key | _ ↦ none ];
  get_str = λ v. elim v [ blob_type ↦ some "deletion-vector-v1" | _ ↦ none ];
  get_uint = λ v. 0;
  get_sint = λ v. elim v [ blob_offset ↦ pos 4 | _ ↦ pos 20 ];
  items = λ v. elim v [ blobs ↦ blob ∷ [] | _ ↦ [] ];
  fields = λ v. [];
}

-- A container with a blob of 20 bytes and a footer of two.
abbrev one_blob_file : Bytes
one_blob_file =
    puffin_magic
    ++ (lit "01234567890123456789"
        ++ (puffin_magic ++ (lit "{}" ++ (2 ∷ 0 ∷ 0 ∷ 0 ∷ 0 ∷ 0 ∷ 0 ∷ 0 ∷ puffin_magic))))

parse_footer-Ensures_example :
    Ensures
      (All (λ b.
        (b.offset + b.length ≤ length one_blob_file)
        × IsSafe (decode_blob one_byte one_blob_file b)))
      (parse_footer one_blob_json one_blob_file)
parse_footer-Ensures_example = parse_footer-Ensures one_blob_json one_byte one_blob_file
