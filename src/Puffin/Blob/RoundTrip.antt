-- ===== src/Puffin/Blob/RoundTrip.antt =====
-- `FromBlob` of src/uc_puffin.cpp reads back what a writer of the format writes.
use unity_catalog.Base.{
  ℕ, suc, ◌+◌, ◌-◌, ◌^◌, ◌≤◌, ◌<◌, ◌≡◌, refl, ap, ◌∙◌, some, true, false, ◌&&◌, List, [], ◌∷◌, ◌++◌,
  append_assoc, append-nil, All, length, length-append, take, drop, min, arith, leb, ltb, ◌==◌,
  le→leb, lt→ltb, Bytes, read_bytes, store_le, length-store_le, load_le, load_le-store_le,
  store_be32, load_be32, load_be32-store_be32, read_bytes-append, read_bytes-take, text_eq_iff,
}
use unity_catalog.Result.{ok}
use unity_catalog.Puffin.Roaring.{Roaring}
use unity_catalog.Puffin.Crc.{crc32}
use unity_catalog.Puffin.Crc.Bounds.{crc32_total}
use unity_catalog.Puffin.Blob.{
  load, require, or_throw, ◌>>=◌, emplace, read_bitmaps, check_sum, from_blob, Bitmaps,
  deletion_vector_magic, sub32,
}

pub take-append {ℓ} : {A : Type ℓ} (xs ys : List A) → take (length xs) (xs ++ ys) ≡ xs
take-append [] ys = refl
take-append (x ∷ xs) ys = ap (◌∷◌ x) (take-append xs ys)

pub drop-append {ℓ} : {A : Type ℓ} (xs ys : List A) → drop (length xs) (xs ++ ys) ≡ ys
drop-append [] ys = refl
drop-append (x ∷ xs) ys = drop-append xs ys

drop-store_be32 : (v : ℕ) (p : Bytes) → drop 4 (store_be32 v ++ p) ≡ p
unfolding store_be32
drop-store_be32 v p = refl

length-store_be32 : (v : ℕ) → length (store_be32 v) ≡ 4
unfolding store_be32
length-store_be32 v = refl

take_through {ℓ} :
    {A : Type ℓ} (xs ys : List A) (k : ℕ) → take (length xs + k) (xs ++ ys) ≡ xs ++ take k ys
take_through [] ys k = let e : 0 + k ≡ k = omega arith in rw e
take_through (x ∷ xs) ys k =
    let e : suc (length xs) + k ≡ suc (length xs + k) = omega arith in
    rw e (ap (◌∷◌ x) (take_through xs ys k))

-- A serialiser of the portable format, and what the reader does on its output.
pub record Serializer (roaring : Roaring) : Type 0 where
  pub write : roaring.Bitmap → Bytes
  pub not_empty : (b : roaring.Bitmap) → 0 < length (write b)
  pub size_lem :
      (b : roaring.Bitmap) (rest : Bytes)
      → roaring.deserialize_size (write b ++ rest) ≡ length (write b)
  pub read_lem : (b : roaring.Bitmap) → roaring.read_safe (write b) ≡ some b

module _ (roaring : Roaring) (writer : Serializer roaring) where
  open roaring use {Bitmap, deserialize_size, read_safe}
  open writer use {write, not_empty, size_lem, read_lem}

  abbrev pub encode_bitmaps : Bitmaps roaring → Bytes
  encode_bitmaps [] = []
  encode_bitmaps ((key, b) ∷ m) = store_le 4 key ++ (write b ++ encode_bitmaps m)

  abbrev pub body : Bitmaps roaring → Bytes
  body m = deletion_vector_magic ++ (store_le 8 (length m) ++ encode_bitmaps m)

  -- The blob of some bitmaps, with their checksum.
  abbrev pub encode : Bitmaps roaring → ℕ → Bytes
  encode m crc = store_be32 (length (body m)) ++ (body m ++ store_be32 crc)

  -- Keys are 32-bit patterns that differ from each other.
  abbrev pub NotIn : ℕ → Bitmaps roaring → Type 0
  NotIn key = All (λ e. (e.0 == key) ≡ false)

  abbrev pub AreDistinct : Bitmaps roaring → Bitmaps roaring → Type 0
  AreDistinct done [] = Unit
  AreDistinct done ((key, b) ∷ m) =
      (key < 2 ^ 32) × NotIn key done × AreDistinct (done ++ (key, b) ∷ []) m

  emplace_new :
      (key : ℕ) (b : Bitmap) (m : Bitmaps roaring)
      → NotIn key m
      → emplace roaring key b m ≡ m ++ (key, b) ∷ []
  unfolding emplace
  emplace_new key b [] h = refl
  emplace_new key b ((k, c) ∷ m) h = rw h.0 (ap (◌∷◌ (k, c)) (emplace_new key b m h.1))

  module _ (key : ℕ) (b : Bitmap) (rest : Bytes) where
    abbrev entry : Bytes
    entry = store_le 4 key ++ (write b ++ rest)

    entry_payload : drop 4 entry ≡ write b ++ rest
    entry_payload = rw (length-store_le 4 key) at (drop-append (store_le 4 key) (write b ++ rest))

    entry_key : key < 2 ^ 32 → load_le 4 entry ≡ some key
    entry_key h = load_le-store_le 4 key (write b ++ rest) h

    length-entry : length entry ≡ 4 + length (write b ++ rest)
    length-entry =
        omega (arith, length-append (store_le 4 key) (write b ++ rest), length-store_le 4 key)

    entry_size :
        (l : ℕ)
        → l ≤ length rest
        → deserialize_size
            (take (min (length (write b) + l) (length (write b ++ rest))) (write b ++ rest))
          ≡ length (write b)
    entry_size l h =
        let fits : min (length (write b) + l) (length (write b ++ rest)) ≡ length (write b) + l =
          omega (arith, length-append (write b) rest) in
        rw fits (rw (take_through (write b) rest l) (size_lem b (take l rest)))

    -- One round of the loop reads one entry and leaves what follows it.
    round :
        (n l : ℕ) (done : Bitmaps roaring)
        → key < 2 ^ 32
        → NotIn key done
        → l ≤ length rest
        → 4 + length (write b) + l < 2 ^ 32
        → read_bitmaps roaring (suc n) entry (4 + length (write b) + l) done
          ≡ read_bitmaps roaring n rest l (done ++ (key, b) ∷ [])
    unfolding read_bitmaps require load or_throw ◌>>=◌
    round n l done h g fits small =
        let enough : leb 4 (length entry) ≡ true = le→leb _ _ (omega (arith, length-entry)) in
        let left : sub32 (4 + length (write b) + l) 4 ≡ length (write b) + l = omega arith in
        let sized : (ltb 0 (length (write b)) && leb (length (write b)) (length (write b ++ rest)))
            ≡ true =
          ground (arith, not_empty b, length-append (write b) rest) in
        let header =
          read_bytes-take (min (length (write b) + l) (length (write b ++ rest))) (write b ++ rest)
            (omega arith) in
        let after : sub32 (length (write b) + l) (length (write b)) ≡ l = omega arith in
        rw (enough, entry_key h, entry_payload, left, header, entry_size l fits, sized)
          (rw (
            read_bytes-append (write b) rest,
            read_lem b,
            drop-append (write b) rest,
            after,
            emplace_new key b done g,
          ))

  read-encode :
      (m done : Bitmaps roaring) (tail : Bytes)
      → AreDistinct done m
      → length (encode_bitmaps m) < 2 ^ 32
      → read_bitmaps roaring (length m) (encode_bitmaps m ++ tail) (length (encode_bitmaps m)) done
        ≡ some (ok (tail, done ++ m))
  read-encode [] done tail d small = unfold read_bitmaps in rw append-nil
  read-encode ((key, b) ∷ m) done tail d small =
      let rest = encode_bitmaps m in
      let shape : (store_le 4 key ++ (write b ++ rest)) ++ tail ≡ entry key b (rest ++ tail) =
        append_assoc (store_le 4 key) (write b ++ rest) tail
        ∙ ap (λ z. store_le 4 key ++ z) (append_assoc (write b) rest tail) in
      let size : length (entry key b rest) ≡ 4 + length (write b) + length rest =
        omega (arith, length-entry key b rest, length-append (write b) rest) in
      rw (shape, size)
        (round key b (rest ++ tail) (length m) (length rest) done d.0 d.1
            (omega (arith, length-append rest tail)) (omega (arith, size))
          ∙ read-encode m (done ++ (key, b) ∷ []) tail d.2 (omega (arith, size))
          ∙ ap (λ z. some (ok (tail, z))) (append_assoc done ((key, b) ∷ []) m))

  length-le-encode : (m : Bitmaps roaring) → length m ≤ length (encode_bitmaps m)
  length-le-encode [] = omega arith
  length-le-encode ((key, b) ∷ m) = omega (
    arith,
    length-le-encode m,
    length-entry key b (encode_bitmaps m),
    length-append (write b) (encode_bitmaps m),
  )

  check_sum-encode :
      (bytes : Bytes) (m : Bitmaps roaring) (crc : ℕ)
      → crc32 bytes ≡ some crc
      → check_sum roaring (bytes ++ store_be32 crc) (store_be32 crc) m ≡ some (ok m)
  unfolding check_sum require load ◌>>=◌
  check_sum-encode bytes m crc sum =
      let (v, e, small) = crc32_total bytes in
      let word : crc < 2 ^ 32 = ground arith in
      let stored : load_be32 (store_be32 crc) ≡ some crc =
        rw append-nil at (load_be32-store_be32 crc [] word) in
      let four = length-store_be32 crc in
      let before : length (bytes ++ store_be32 crc) - 4 ≡ length bytes =
        omega (arith, length-append bytes (store_be32 crc), four) in
      let same : (crc == crc) ≡ true = ground arith in
      rw (four, stored, before, read_bytes-append bytes (store_be32 crc), sum, same)

  -- A blob written from bitmaps with distinct keys and the checksum of its body reads back as the
  -- map of those bitmaps, as long as its body has fewer than 2 ^ 32 bytes. (The code's map has no
  -- order; the list that stands for it here is in the order of the blob.)
  pub from_blob-encode :
      (m : Bitmaps roaring) (crc : ℕ)
      → AreDistinct [] m
      → length (body m) < 2 ^ 32
      → crc32 (body m) ≡ some crc
      → from_blob roaring (encode m crc) ≡ some (ok m)
  unfolding from_blob require load ◌>>=◌
  from_blob-encode m crc d small sum =
      let tail = store_be32 crc in
      let entries = encode_bitmaps m in
      let counted = store_le 8 (length m) ++ (entries ++ tail) in
      let checked = body m ++ tail in
      let sizes : length counted ≡ 8 + length (entries ++ tail) = omega (
        arith,
        length-append (store_le 8 (length m)) (entries ++ tail),
        length-store_le 8 (length m),
      ) in
      let size : length (body m) ≡ 12 + length entries =
        omega
          (arith, length-append (store_le 8 (length m)) entries, length-store_le 8 (length m)) in
      let big : leb 20 (length (encode m crc)) ≡ true = le→leb _ _ (
        omega (
          arith,
          size,
          length-append (store_be32 (length (body m))) checked,
          length-append (body m) tail,
          length-store_be32 crc,
          length-store_be32 (length (body m)),
        )) in
      let declared : load_be32 (encode m crc) ≡ some (length (body m)) =
        load_be32-store_be32 (length (body m)) checked small in
      let magic : read_bytes 4 checked ≡ some deletion_vector_magic = unfold read_bytes in refl in
      let shape : drop 4 checked ≡ counted = append_assoc (store_le 8 (length m)) entries tail in
      let room : leb 8 (length counted) ≡ true = le→leb _ _ (omega (arith, sizes)) in
      let amount : load_le 8 counted ≡ some (length m) =
        load_le-store_le 8 (length m) (entries ++ tail) (omega (arith, size, length-le-encode m)) in
      let few : ltb (length m) (2 ^ 63) ≡ true =
        lt→ltb _ _ (omega (arith, size, length-le-encode m)) in
      let payload : drop 8 counted ≡ entries ++ tail =
        rw (length-store_le 8 (length m)) at
          (drop-append (store_le 8 (length m)) (entries ++ tail)) in
      let left : sub32 (sub32 (length (body m)) 4) 8 ≡ length entries = omega (arith, size) in
      rw
        (
          big,
          declared,
          drop-store_be32 (length (body m)) checked,
          magic,
          (text_eq_iff deletion_vector_magic _).1 refl,
          shape,
          room,
          amount,
          few,
          payload,
          left,
          read-encode m [] tail d (omega (arith, size)),
        )
        (rw (append_assoc (store_le 8 (length m)) entries tail) at
          (check_sum-encode (body m) m crc sum))
