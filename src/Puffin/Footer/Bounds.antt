-- ===== src/Puffin/Footer/Bounds.antt =====
-- `UCPuffinReader` of src/uc_puffin.cpp reads within the file, and so do the blobs that it lists.
use unity_catalog.Base.{
  ℕ, ◌+◌, ◌≤◌, ◌≡◌, refl, Option, none, some, Bool, true, false, List, [], ◌∷◌, All, Bytes, length,
  length-drop, drop, read_bytes, read_bytes_total, load_le_total, sub64, sub64-le, to_nat, arith,
  leb, leb→le, Bool-cases, inl, inr, ℤ, String, Option-cases, str_eq,
}
use unity_catalog.Result.{Result, ok, err, invalid_input}
use unity_catalog.Json.{Yyjson, str?, arr?}
use unity_catalog.Puffin.Roaring.{Roaring}
use unity_catalog.Puffin.Blob.{Checked, load, require, ◌>>=◌}
use unity_catalog.Puffin.Blob.Safe.{IsSafe, from_blob-IsSafe}
use unity_catalog.Puffin.Footer.{
  PuffinBlob, same_four, is_bare_deletion_vector, starts_as_container, validate_footer, int_field,
  check_range, parse_range, try_parse_blob_metadata, push, parse_blobs, parse_file_metadata,
  parse_container, parse_bare, parse_footer, decode_blob,
}

-- No read outside the file, and a postcondition of what is returned.
pub data Ensures {ℓ κ} {A : Type ℓ} (P : A → Type κ) : Checked A → Type (ℓ ⊔ κ) where
  ensures : (a : A) → P a → Ensures P (some (ok a))
  throws : (e : unity_catalog.Result.Exception) → Ensures P (some (err e))

module _ {ℓ κ μ} {A : Type ℓ} {B : Type κ} {P : B → Type μ} where
  bind-Ensures {ν} :
      (Q : A → Type ν) (m : Checked A) (f : A → Checked B)
      → Ensures Q m
      → ((a : A) → Q a → Ensures P (f a))
      → Ensures P (m >>= f)
  unfolding ◌>>=◌
  bind-Ensures Q m f (ensures a q) k = k a q
  bind-Ensures Q m f (throws e) k = throws e

module _ {ℓ κ} {B : Type ℓ} {P : B → Type κ} where
  require-Ensures :
      (b : Bool) (k : Checked B) → (b ≡ true → Ensures P k) → Ensures P (require b >>= λ _. k)
  unfolding require ◌>>=◌
  require-Ensures true k h = h refl
  require-Ensures false k h = throws invalid_input

abbrev Any {ℓ} : {A : Type ℓ} → A → Type 0
Any a = Unit

load-Ensures {ℓ} : {A : Type ℓ} (o : Option A) → (a : A) × (o ≡ some a) → Ensures Any (load o)
unfolding load
load-Ensures none (a, e) = cc
load-Ensures (some a) h = ensures a tt

same_four-Ensures : (p q : Bytes) → 4 ≤ length p → Ensures Any (same_four p q)
unfolding same_four
same_four-Ensures p q h =
    bind-Ensures Any (load (read_bytes 4 p)) _ (load-Ensures _ (read_bytes_total 4 p h))
      λ bytes _. ensures _ tt

starts_as_container-Ensures :
    (file : Bytes) → Ensures (λ c. c ≡ true → 20 ≤ length file) (starts_as_container file)
unfolding starts_as_container
starts_as_container-Ensures file = elim (Bool-cases (leb 20 (length file))) [
  | inl big ↦ rw big (
      weaken (leb→le 20 (length file) big)
        (same_four-Ensures file _ (omega (arith, leb→le 20 (length file) big))))
  | inr small ↦ rw small (ensures false (λ e. cc))
]
  where
    weaken :
        {m : Checked Bool}
        → 20 ≤ length file
        → Ensures Any m
        → Ensures (λ c. c ≡ true → 20 ≤ length file) m
    weaken h (ensures a p) = ensures a (λ _. h)
    weaken h (throws e) = throws e

-- Where the footer's payload may begin.
abbrev pub InFile : Bytes → ℕ → Type 0
InFile file start = (8 ≤ start) × (start + 12 ≤ length file)

validate_footer-Ensures :
    (file : Bytes) → 20 ≤ length file → Ensures (InFile file) (validate_footer file)
unfolding validate_footer
validate_footer-Ensures file h =
    let tail = sub64-le (length file) 12 (omega arith) in
    bind-Ensures Any (same_four _ _) _
      (same_four-Ensures _ _ (
        omega (
          arith,
          length-drop (sub64 (length file) 4) file,
          sub64-le (length file) 4 (omega arith),
        )))
      λ trailing _. require-Ensures _ _ λ _.
        bind-Ensures Any (load _) _
          (load-Ensures _ (
            load_le_total 4 _ (
              omega (
                arith,
                length-drop (sub64 (length file) 8) file,
                sub64-le (length file) 8 (omega arith),
              ))))
          λ flags _. require-Ensures _ _ λ _. require-Ensures _ _ λ _.
            bind-Ensures Any (load _) _
              (load-Ensures _ (
                load_le_total 4 _ (omega (arith, length-drop (sub64 (length file) 12) file, tail))))
              λ size _. require-Ensures _ _ λ fits.
                let bound = leb→le size (sub64 (length file) 20) fits in
                let least = sub64-le (length file) 20 h in
                let start = sub64-le (sub64 (length file) 12) size (omega arith) in
                let footer = sub64-le (sub64 (sub64 (length file) 12) size) 4 (omega arith) in
                bind-Ensures Any (same_four _ _) _
                  (same_four-Ensures _ _ (
                    omega
                      (arith, length-drop (sub64 (sub64 (sub64 (length file) 12) size) 4) file)))
                  λ leading _. require-Ensures _ _ λ _. ensures _ (omega arith, omega arith)

-- A blob that lies between the leading magic and `end`.
abbrev pub Fits : ℕ → PuffinBlob → Type 0
Fits end b = (4 ≤ b.offset) × (b.offset + b.length ≤ end)

abbrev FitsOption : ℕ → Option PuffinBlob → Type 0
FitsOption end none = Unit
FitsOption end (some b) = Fits end b

module _ (json : Yyjson) where
  open json use {Val, read, items, obj_get, is_int}

  check_range-Ensures : (o l : ℤ) (end : ℕ) → Ensures (FitsOption end) (check_range json o l end)
  unfolding check_range
  check_range-Ensures o l end = require-Ensures _ _ λ _.
      require-Ensures _ _ λ range. ensures _ (ground arith, ground (arith, sub64-le end (to_nat l)))

  int_field-Ensures : (v : Val) (key : String) → Ensures Any (int_field json v key)
  unfolding int_field
  int_field-Ensures v key = elim (Option-cases (obj_get v key)) [
    | inl e ↦ rw (e, int_field) (throws invalid_input)
    | inr (n, e) ↦
        rw (e, int_field)
          (elim (Bool-cases (is_int n)) [
            | inl i ↦ rw i (ensures _ tt)
            | inr i ↦ rw i (throws invalid_input)
          ])
  ]

  parse_range-Ensures : (v : Val) (end : ℕ) → Ensures (FitsOption end) (parse_range json v end)
  unfolding parse_range
  parse_range-Ensures v end = bind-Ensures Any (int_field json v _) _ (int_field-Ensures v _) λ o _.
      bind-Ensures Any (int_field json v _) _ (int_field-Ensures v _)
        λ l _. check_range-Ensures o l end

  metadata-Ensures :
      (v : Val) (end : ℕ) → Ensures (FitsOption end) (try_parse_blob_metadata json v end)
  unfolding try_parse_blob_metadata
  metadata-Ensures v end = elim (Option-cases (str? json (obj_get v "type"))) [
    | inl e ↦ rw (e, try_parse_blob_metadata) (throws invalid_input)
    | inr (t, e) ↦
        rw (e, try_parse_blob_metadata)
          (elim (Bool-cases (str_eq t "deletion-vector-v1")) [
            | inl i ↦ rw i (parse_range-Ensures v end)
            | inr i ↦ rw i (ensures none tt)
          ])
  ]

  push-Fits :
      (end : ℕ) (o : Option PuffinBlob) (bs : List PuffinBlob)
      → FitsOption end o
      → All (Fits end) bs
      → All (Fits end) (push json o bs)
  push-Fits end none bs h g = g
  push-Fits end (some b) bs h g = (h, g)

  parse_blobs-Ensures :
      (vs : List Val) (end : ℕ) → Ensures (All (Fits end)) (parse_blobs json vs end)
  unfolding parse_blobs
  parse_blobs-Ensures [] end = ensures [] tt
  parse_blobs-Ensures (v ∷ vs) end =
      bind-Ensures (FitsOption end) (try_parse_blob_metadata json v end) _ (metadata-Ensures v end)
        λ o h.
          bind-Ensures (All (Fits end)) (parse_blobs json vs end) _ (parse_blobs-Ensures vs end)
            λ bs g. ensures _ (push-Fits end o bs h g)

  parse_file_metadata-Ensures :
      (payload : Bytes) (end : ℕ) → Ensures (All (Fits end)) (parse_file_metadata json payload end)
  unfolding parse_file_metadata
  parse_file_metadata-Ensures payload end = elim (Option-cases (read payload)) [
    | inl e ↦ rw (e, parse_file_metadata) (throws invalid_input)
    | inr (root, e) ↦
        rw (e, parse_file_metadata)
          (elim (Option-cases (arr? json (obj_get root "blobs"))) [
            | inl i ↦ rw i (throws invalid_input)
            | inr (blobs, i) ↦ rw i (parse_blobs-Ensures (items blobs) end)
          ])
  ]

  Fits-widen :
      (m n : ℕ) (bs : List PuffinBlob)
      → m ≤ n
      → All (Fits m) bs
      → All (λ b. b.offset + b.length ≤ n) bs
  Fits-widen m n [] h g = tt
  Fits-widen m n (b ∷ bs) h g = (omega arith, Fits-widen m n bs h g.1)

  -- The payload that the footer announces lies in the file.
  payload-Ensures :
      (file : Bytes) (start : ℕ)
      → InFile file start
      → Ensures Any (load (read_bytes (sub64 (sub64 (length file) 12) start) (drop start file)))
  payload-Ensures file start (low, high) =
      let tail = sub64-le (length file) 12 (omega arith) in
      let size = sub64-le (sub64 (length file) 12) start (omega arith) in
      load-Ensures _ (read_bytes_total _ _ (omega (arith, length-drop start file)))

  parse_container-Ensures :
      (file : Bytes)
      → 20 ≤ length file
      → Ensures (All (λ b. b.offset + b.length ≤ length file)) (parse_container json file)
  unfolding parse_container
  parse_container-Ensures file h =
      bind-Ensures (InFile file) (validate_footer file) _ (validate_footer-Ensures file h)
        λ start g.
          bind-Ensures Any (load _) _ (payload-Ensures file start g)
            λ payload _. widen start g (parse_file_metadata-Ensures payload (sub64 start 4))
    where
      widen :
          (start : ℕ) {m : Checked (List PuffinBlob)}
          → InFile file start
          → Ensures (All (Fits (sub64 start 4))) m
          → Ensures (All (λ b. b.offset + b.length ≤ length file)) m
      widen start g (ensures bs f) = ensures bs (
          Fits-widen (sub64 start 4) (length file) bs
            (omega (arith, sub64-le start 4 (omega arith))) f)
      widen start g (throws e) = throws e

  parse_bare-Ensures :
      (file : Bytes) → Ensures (All (λ b. b.offset + b.length ≤ length file)) (parse_bare json file)
  unfolding parse_bare is_bare_deletion_vector
  parse_bare-Ensures file =
      bind-Ensures Any (is_bare_deletion_vector file) _
        (elim (Bool-cases (leb 8 (length file))) [
          | inl big ↦ rw big (
              same_four-Ensures _ _ (omega (arith, length-drop 4 file, leb→le 8 (length file) big)))
          | inr small ↦ rw small (ensures false tt)
        ])
        λ bare _. require-Ensures _ _ λ _. ensures _ (omega arith, tt)

  -- Each blob that is listed lies within the file.
  listed-Ensures :
      (file : Bytes)
      → Ensures (All (λ b. b.offset + b.length ≤ length file)) (parse_footer json file)
  unfolding parse_footer
  listed-Ensures file =
      bind-Ensures (λ c. c ≡ true → 20 ≤ length file) (starts_as_container file) _
        (starts_as_container-Ensures file)
        (elim [
          | true ↦ λ h. parse_container-Ensures file (h refl)
          | false ↦ λ h. parse_bare-Ensures file
        ])

-- A blob that lies within the file is decoded within its own bytes.
decode_blob-IsSafe :
    (roaring : Roaring) (file : Bytes) (b : PuffinBlob)
    → b.offset + b.length ≤ length file
    → IsSafe (decode_blob roaring file b)
unfolding decode_blob ◌>>=◌ load
decode_blob-IsSafe roaring file b h =
    let (bytes, e) =
      read_bytes_total b.length (drop b.offset file) (omega (arith, length-drop b.offset file)) in
    rw e (from_blob-IsSafe roaring bytes)

All-decode :
    (roaring : Roaring) (file : Bytes) (bs : List PuffinBlob)
    → All (λ b. b.offset + b.length ≤ length file) bs
    → All (λ b. (b.offset + b.length ≤ length file) × IsSafe (decode_blob roaring file b)) bs
All-decode roaring file [] h = tt
All-decode roaring file (b ∷ bs) h =
    ((h.0, decode_blob-IsSafe roaring file b h.0), All-decode roaring file bs h.1)

module _ (json : Yyjson) (roaring : Roaring) (file : Bytes) where
  decodes :
      {m : Checked (List PuffinBlob)}
      → Ensures (All (λ b. b.offset + b.length ≤ length file)) m
      → Ensures
          (All (λ b. (b.offset + b.length ≤ length file) × IsSafe (decode_blob roaring file b)))
          m
  decodes (ensures bs h) = ensures bs (All-decode roaring file bs h)
  decodes (throws e) = throws e

  -- Reading the footer of any file makes no read outside the file, the payload that it announces
  -- included; each blob that it lists lies within the file; and decoding that blob reads within its
  -- bytes.
  pub parse_footer-Ensures :
      Ensures
        (All (λ b. (b.offset + b.length ≤ length file) × IsSafe (decode_blob roaring file b)))
        (parse_footer json file)
  parse_footer-Ensures = decodes (listed-Ensures json file)
