-- ===== src/Api/Fields.antt =====
-- `TemplatedTryGetYYJson` of src/uc_api.cpp and its two instances.
use unity_catalog.Base.{ℕ, String, Option, none, some, Bool, if◌then◌else◌}
use unity_catalog.Json.{Yyjson, Kind, null, num, str, get?, is}
use unity_catalog.Result.{Result, ok, err, io}

module _ (json : Yyjson) where
  open json use {Val, get_str, get_uint}

  unfoldable pub try_get {ℓ} :
      {A : Type ℓ} → Kind → (Val → A) → Option Val → String → A → Bool → Result A
  try_get kind get obj field default_val fail_on_missing =
      let missing = if fail_on_missing then err io else ok default_val in
      elim (get? json obj field) [
        | none ↦ missing
        | some val ↦
            if is json null val then missing else if is json kind val then ok (get val) else err io
      ]

  -- `yyjson_get_str` of a value that is a string.
  abbrev pub text_of : Val → String
  text_of v = elim (get_str v) [ none ↦ "" | some s ↦ s ]

  unfoldable pub try_get_num : Option Val → String → Bool → Result ℕ
  try_get_num obj field fail_on_missing = try_get num get_uint obj field 0 fail_on_missing

  unfoldable pub try_get_str : Option Val → String → Bool → Result String
  try_get_str obj field fail_on_missing = try_get str text_of obj field "" fail_on_missing
