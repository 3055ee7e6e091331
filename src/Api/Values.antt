-- ===== src/Api/Values.antt =====
-- The lists and maps of strings that src/uc_api.cpp reads from a response and writes into a request.
pub mod Taken
use unity_catalog.Base.{
  String, Option, none, some, List, [], ◌∷◌, ◌++◌, ◌||◌, false, str_eq, if◌then◌else◌, Text, lit, ℤ,
}
use unity_catalog.Json.{Yyjson, bool, num, str, null, is, arr?, obj?, items?, fields?, get?}
use unity_catalog.Result.{Result, ok, err, invalid_input, ◌>>=◌, traverse}
use unity_catalog.Api.Fields.{text_of, try_get_str}
use unity_catalog.Api.Data.{TableCredentials, no_credentials}

-- What the code calls to print JSON and numbers.
pub record Printer (Val : Type 0) : Type 0 where
  -- `YYJsonEncodeString`, which throws where yyjson cannot encode the text
  pub encode : Text → Result Text
  -- `yyjson_val_write` of a value
  pub val_write : Val → Option String
  -- `%d` and `%lld`
  pub show : ℤ → Text

-- `StringUtil::Join` by ", ".
pub comma_join : List Text → Text
comma_join [] = []
comma_join (x ∷ []) = x
comma_join (x ∷ y ∷ rest) = x ++ lit ", " ++ comma_join (y ∷ rest)

module _ (json : Yyjson) where
  open json use {Val, items, fields}

  module _ (printer : Printer Val) where
    open printer use {encode, val_write}

    -- What one field of the object adds to the map.
    pub read_property : String × Val → Result (List (String × String))
    read_property (key, val) =
        if is json null val
        then ok []
        else if is json str val
        then ok ((key, text_of json val) ∷ [])
        else if is json bool val || is json num val
        then elim (val_write val) [ none ↦ err invalid_input | some text ↦ ok ((key, text) ∷ []) ]
        else err invalid_input

    pub read_properties : List (String × Val) → Result (List (String × String))
    read_properties [] = ok []
    read_properties (f ∷ fs) = do p ← read_property f; ps ← read_properties fs; ok (p ++ ps)

    -- `ReadStringMap`
    pub read_string_map : Option Val → Result (List (String × String))
    unfolding read_properties read_property
    read_string_map obj = read_properties (fields? json (obj? json obj))

    -- `JsonStringArray`
    unfoldable pub json_string_array : List String → Result Text
    unfolding comma_join
    json_string_array values = do
      encoded ← traverse (λ value. encode (lit value)) values
      ok (lit "[" ++ comma_join encoded ++ lit "]")

    pub encode_pair : String × String → Result Text
    encode_pair (key, value) = do
      k ← encode (lit key)
      v ← encode (lit value)
      ok (k ++ lit ": " ++ v)

    -- `JsonStringMap`
    unfoldable pub json_string_map : List (String × String) → Result Text
    unfolding comma_join encode_pair
    json_string_map values = do
      encoded ← traverse encode_pair values
      ok (lit "{" ++ comma_join encoded ++ lit "}")

  pub strings : List Val → List String
  strings [] = []
  strings (v ∷ vs) = if is json str v then text_of json v ∷ strings vs else strings vs

  -- `ReadStringArray`
  pub read_string_array : Option Val → List String
  unfolding strings
  read_string_array arr = strings (items? json (arr? json arr))

  -- The three keys of an object with S3 credentials.
  pub read_keys : String → String → String → Option Val → Result TableCredentials
  read_keys id_field secret_field token_field cfg = do
    key_id ← try_get_str json cfg id_field false
    secret ← try_get_str json cfg secret_field false
    session_token ← try_get_str json cfg token_field false
    ok (record { key_id = key_id; secret = secret; session_token = session_token })

  pub first : List Val → Option Val
  first [] = none
  first (v ∷ vs) = some v

  -- `ReadStorageCredentials`, into credentials that are empty.
  pub read_storage_credentials : Option Val → Result TableCredentials
  unfolding read_keys first
  read_storage_credentials root =
      let creds = first (items? json (arr? json (get? json root "storage-credentials"))) in
      elim (obj? json (get? json creds "config")) [
        | none ↦ ok no_credentials
        | some cfg ↦
            read_keys "s3.access-key-id" "s3.secret-access-key" "s3.session-token" (some cfg)
      ]

  pub read_setting_name : Option Val → Result String
  read_setting_name root = do
    setting_name ← try_get_str json root "setting_name" false
    if str_eq setting_name "" then err invalid_input else ok setting_name
