-- ===== src/Api/Calls.antt =====
-- The REST calls of `UCAPI` in src/uc_api.cpp, but for the planned scans: what all of them share.
pub mod Answer
pub mod Create
pub mod Load
pub mod Update
pub mod Access
pub mod Listing
use Prim.Native.String.{◌++◌ as ◌<>◌}
use unity_catalog.Base.{String, Option, none, Text}
use unity_catalog.Json.{Yyjson}
use unity_catalog.Result.Exec.{Exec, pure, lift, ◌>>=◌}
use unity_catalog.Http.{Http, Net, make_request_resp}
use unity_catalog.Api.Data.{Credentials, TableName}
use unity_catalog.Api.Errors.{throw_error}

-- The part of the interface that is about the tables of a schema.
abbrev pub delta_schema_url : Credentials → TableName → String
delta_schema_url c t =
    c.endpoint <> "/api/2.1/unity-catalog/delta/v1/catalogs/" <> t.catalog_name <> "/schemas/"
    <> t.schema_name

abbrev pub delta_table_url : Credentials → TableName → String
delta_table_url c t = delta_schema_url c t <> "/tables/" <> t.table_name

-- `catalog.schema.table`
abbrev pub full_name : TableName → String
full_name t = t.catalog_name <> "." <> t.schema_name <> "." <> t.table_name

module _ (json : Yyjson) (http : Http) (c : Credentials) where
  open json use {Val}

  -- `MakeRequest`
  unfoldable pub make_request : String → Text → Exec (Net http) Text
  make_request url body = do resp ← make_request_resp http url c.token body none; pure resp.body

  -- A request whose answer is parsed and checked for an error.
  unfoldable pub ask : String → Text → Exec (Net http) (Option Val)
  unfolding make_request
  ask url body = do text ← make_request url body; lift (throw_error json (json.read text))
