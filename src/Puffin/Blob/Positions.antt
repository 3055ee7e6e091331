-- ===== src/Puffin/Blob/Positions.antt =====
-- `ToSet` of src/uc_puffin.cpp: the positions that the bitmaps stand for.
use unity_catalog.Base.{
  ℕ, ◌+◌, ◌*◌, ◌%◌, ◌^◌, ◌<◌, ◌≡◌, refl, List, [], ◌∷◌, ◌++◌, All, arith, bit_or-shifted,
}
use unity_catalog.Puffin.Roaring.{Roaring}
use unity_catalog.Puffin.Blob.{Bitmaps, sign_extend, positions_of, to_set}

module _ (roaring : Roaring) where
  open roaring use {Bitmap, values}

  -- Keys and values are 32-bit words.
  abbrev pub AreWords : Bitmaps roaring → Type 0
  AreWords = All (λ e. (e.0 < 2 ^ 32) × All (λ v. v < 2 ^ 32) (values e.1))

  abbrev pub bucket : ℕ → List ℕ → List ℕ
  bucket key [] = []
  bucket key (v ∷ vs) = (key * 2 ^ 32 + v) ∷ bucket key vs

  abbrev pub buckets : Bitmaps roaring → List ℕ
  buckets [] = []
  buckets ((key, b) ∷ rest) = bucket key (values b) ++ buckets rest

  shifted_key : (key : ℕ) → key < 2 ^ 32 → sign_extend roaring key * 2 ^ 32 % 2 ^ 64 ≡ key * 2 ^ 32
  unfolding sign_extend
  shifted_key key h = ground arith

  positions_of-bucket :
      (key : ℕ) (vs : List ℕ)
      → key < 2 ^ 32
      → All (λ v. v < 2 ^ 32) vs
      → positions_of roaring key vs ≡ bucket key vs
  unfolding positions_of
  positions_of-bucket key [] h a = refl
  positions_of-bucket key (v ∷ vs) h a =
      rw (shifted_key key h, bit_or-shifted 32 key v a.0, positions_of-bucket key vs h a.1)

  -- The positions are the values of each bitmap, moved up by 2 ^ 32 times the bit pattern of its
  -- key, for a key that reads as a negative `int32_t` too.
  pub to_set-buckets : (m : Bitmaps roaring) → AreWords m → to_set roaring m ≡ buckets m
  unfolding to_set
  to_set-buckets [] a = refl
  to_set-buckets ((key, b) ∷ rest) a =
      rw (positions_of-bucket key (values b) a.0.0 a.0.1, to_set-buckets rest a.1)
