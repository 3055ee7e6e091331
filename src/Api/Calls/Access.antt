-- ===== src/Api/Calls/Access.antt =====
-- `GetTableCredentials`, `GetStagingTableCredentials` and `GetDefaultSchema` of src/uc_api.cpp.
use Prim.Native.String.{◌++◌ as ◌<>◌}
use unity_catalog.Base.{String, Option, none, some, [], Bool, true, false, lit, if◌then◌else◌}
use unity_catalog.Json.{Yyjson, get?, obj?}
use unity_catalog.Result.{Result, ok}
use unity_catalog.Result.Exec.{Exec, lift, ◌>>=◌}
use unity_catalog.Http.{Http, Net}
use unity_catalog.Api.Data.{Credentials, TableName, TableCredentials, no_credentials}
use unity_catalog.Api.Values.{read_keys, read_storage_credentials, read_setting_name}
use unity_catalog.Api.Calls.{delta_table_url, ask}

abbrev operation : Bool → String
operation write = if write then "READ_WRITE" else "READ"

module _ (json : Yyjson) where
  open json use {Val}

  pub read_aws_credentials : Option Val → Result TableCredentials
  read_aws_credentials root = elim (obj? json (get? json root "aws_temp_credentials")) [
    | none ↦ ok no_credentials
    | some aws ↦ read_keys json "access_key_id" "secret_access_key" "session_token" (some aws)
  ]

  module _ (http : Http) (c : Credentials) where
    temporary_credentials : String → Bool → Exec (Net http) TableCredentials
    unfolding read_aws_credentials
    temporary_credentials table_id write = do
      root ← ask json http c (c.endpoint <> "/api/2.1/unity-catalog/temporary-table-credentials") (
          lit (
            "{\"table_id\": \"" <> table_id <> "\", \"operation\": \"" <> operation write <> "\"}"))
      lift (read_aws_credentials root)

    managed_credentials : TableName → Bool → Exec (Net http) TableCredentials
    managed_credentials t write = do
      root ←
          ask json http c (delta_table_url c t <> "/credentials?operation=" <> operation write) []
      lift (read_storage_credentials json root)

    unfoldable pub get_table_credentials :
        TableName → String → Bool → Bool → Exec (Net http) TableCredentials
    unfolding temporary_credentials managed_credentials
    get_table_credentials t table_id catalog_managed write = elim catalog_managed [
      | false ↦ temporary_credentials table_id write
      | true ↦ managed_credentials t write
    ]

    unfoldable pub get_staging_table_credentials : String → Exec (Net http) TableCredentials
    get_staging_table_credentials table_id = do
      root ←
          ask json http c
            (c.endpoint <> "/api/2.1/unity-catalog/delta/v1/staging-tables/" <> table_id
              <> "/credentials")
            []
      lift (read_storage_credentials json root)

    unfoldable pub get_default_schema : Exec (Net http) String
    get_default_schema = do
      root ←
          ask json http c
            (c.endpoint <> "/api/2.0/settings/types/default_namespace_ws/names/default") []
      lift (read_setting_name json root)
