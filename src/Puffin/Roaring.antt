-- ===== src/Puffin/Roaring.antt =====
-- What src/uc_puffin.cpp calls of the CRoaring library: a bitmap is read from its portable format.
use unity_catalog.Base.{ℕ, Option, List, Bytes}

pub record Roaring : Type 1 where
  pub Bitmap : Type 0
  -- `roaring_bitmap_portable_deserialize_size(buf, maxbytes)`: it sees at most `maxbytes` bytes, and
  -- answers 0 where no bitmap starts there
  pub deserialize_size : Bytes → ℕ
  -- `Roaring::readSafe(buf, maxbytes)`; `none` is a throw
  pub read_safe : Bytes → Option Bitmap
  -- the values that `iterate` visits, each a `uint32_t`
  pub values : Bitmap → List ℕ
