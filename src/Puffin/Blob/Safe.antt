-- ===== src/Puffin/Blob/Safe.antt =====
-- `FromBlob` of src/uc_puffin.cpp reads within the blob.
use unity_catalog.Base.{
  ℕ, zero, suc, ◌-◌, ◌≡◌, refl, Option, none, some, Bool, true, false, [], Bytes, length,
  length-drop, drop, read_bytes_total, load_le_total, load_be32_total, arith, leb→le, ==_iff,
}
use unity_catalog.Result.{Result, ok, err, invalid_input, std_exception}
use unity_catalog.Puffin.Roaring.{Roaring}
use unity_catalog.Puffin.Crc.Bounds.{crc32_total}
use unity_catalog.Puffin.Blob.{
  Checked, load, require, or_throw, ◌>>=◌, read_bitmaps, check_sum, from_blob, Bitmaps,
}

-- No read past the end of the buffer.
pub data IsSafe {ℓ} {A : Type ℓ} : Checked A → Type ℓ where
  returns : (r : Result A) → IsSafe (some r)

bind-IsSafe {ℓ κ} :
    {A : Type ℓ} {B : Type κ} (m : Checked A) (f : A → Checked B)
    → IsSafe m
    → ((a : A) → m ≡ some (ok a) → IsSafe (f a))
    → IsSafe (m >>= f)
unfolding ◌>>=◌
bind-IsSafe none f h k = elim h [ ]
bind-IsSafe (some (ok a)) f h k = k a refl
bind-IsSafe (some (err e)) f h k = returns (err e)

require-IsSafe {ℓ} :
    {B : Type ℓ} (b : Bool) (k : Checked B) → (b ≡ true → IsSafe k) → IsSafe (require b >>= λ _. k)
unfolding require ◌>>=◌
require-IsSafe true k h = h refl
require-IsSafe false k h = returns (err invalid_input)

load-IsSafe {ℓ κ} :
    {A : Type ℓ} {B : Type κ} (o : Option A) (f : A → Checked B)
    → (a : A) × (o ≡ some a)
    → ((a : A) → IsSafe (f a))
    → IsSafe (load o >>= f)
unfolding load ◌>>=◌
load-IsSafe none f (a, e) k = cc
load-IsSafe (some a) f h k = k a

module _ (roaring : Roaring) where
  open roaring use {Bitmap, deserialize_size, read_safe}

  or_throw-IsSafe : (o : Option Bitmap) → IsSafe (or_throw roaring o)
  unfolding or_throw
  or_throw-IsSafe none = returns (err std_exception)
  or_throw-IsSafe (some b) = returns (ok b)

  read_bitmaps-IsSafe :
      (n : ℕ) (p : Bytes) (size : ℕ) (m : Bitmaps roaring)
      → IsSafe (read_bitmaps roaring n p size m)
  unfolding read_bitmaps
  read_bitmaps-IsSafe zero p size m = returns (ok (p, m))
  read_bitmaps-IsSafe (suc n) p size m = require-IsSafe _ _ λ fits.
      load-IsSafe _ _ (load_le_total 4 p (leb→le _ _ fits)) λ key.
        load-IsSafe _ _ (read_bytes_total _ (drop 4 p) (omega arith)) λ header.
          require-IsSafe _ _ λ sized.
            load-IsSafe _ _ (read_bytes_total _ (drop 4 p) (ground arith)) λ bytes.
              bind-IsSafe (or_throw roaring _) _ (or_throw-IsSafe _)
                λ bitmap _. read_bitmaps-IsSafe n _ _ _

  check_sum-IsSafe : (c p : Bytes) (m : Bitmaps roaring) → IsSafe (check_sum roaring c p m)
  unfolding check_sum
  check_sum-IsSafe c p m = require-IsSafe _ _ λ four.
      load-IsSafe _ _ (load_be32_total p (ground (arith, ==_iff (length p) 4))) λ stored.
        load-IsSafe _ _ (read_bytes_total (length c - length p) c (omega arith)) λ summed.
          load-IsSafe _ _ (let (v, e, _) = crc32_total summed in (v, e))
            λ crc. require-IsSafe _ _ λ _. returns (ok m)

  -- `FromBlob` never reads past the end of the blob that it is given, whatever the bytes are and
  -- whatever the bitmap library answers.
  pub from_blob-IsSafe : (blob : Bytes) → IsSafe (from_blob roaring blob)
  unfolding from_blob
  from_blob-IsSafe blob = require-IsSafe _ _ λ big.
      let size = leb→le 20 (length blob) big in
      load-IsSafe _ _ (load_be32_total blob (omega arith)) λ vector_size.
        load-IsSafe _ _ (read_bytes_total 4 (drop 4 blob) (omega (arith, length-drop 4 blob)))
          λ magic. require-IsSafe _ _ λ _. require-IsSafe _ _ λ counted.
            load-IsSafe _ _ (load_le_total 8 (drop 4 (drop 4 blob)) (leb→le _ _ counted)) λ amount.
              require-IsSafe _ _ λ _.
                bind-IsSafe (read_bitmaps roaring amount _ _ []) _
                  (read_bitmaps-IsSafe amount _ _ []) λ r _. check_sum-IsSafe (drop 4 blob) r.0 r.1
