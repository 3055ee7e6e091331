-- ===== src/Api/Calls/Create.antt =====
-- `CreateStagingTable`, `CreateTable` and `TableExists` of src/uc_api.cpp.
pub mod Conflict
use Prim.Native.String.{◌++◌ as ◌<>◌}
use unity_catalog.Base.{
  ℕ, ℤ, pos, String, Option, none, some, List, [], ◌++◌, Bool, not, false, true, Text, lit, ◌==◌,
  to_int64,
}
use unity_catalog.Json.{Yyjson, get?, obj?}
use unity_catalog.Result.{Result, ok, err, ◌>>=◌}
use unity_catalog.Result.Exec as Exec
use unity_catalog.Result.Exec.{Exec, pure, lift}
use unity_catalog.Http.{Http, Net, make_request_resp}
use unity_catalog.Api.Data.{Credentials, TableName, StagingTable, CommittedTable}
use unity_catalog.Api.Fields.{try_get_str, try_get_num}
use unity_catalog.Api.Errors.{creation_outcome}
use unity_catalog.Api.Values.{
  Printer, read_string_map, read_string_array, json_string_array, json_string_map,
}
use unity_catalog.Api.Calls.{delta_schema_url, full_name}

-- The four fields of a protocol.
pub record Protocol : Type 0 where
  pub min_reader_version : ℤ
  pub min_writer_version : ℤ
  pub reader_features : List String
  pub writer_features : List String

module _ (json : Yyjson) (printer : Printer json.Val) where
  open json use {Val}
  open printer use {encode, show}

  read_protocol : Option Val → Result Protocol
  read_protocol none = ok (record {
    min_reader_version = pos 0;
    min_writer_version = pos 0;
    reader_features = [];
    writer_features = [];
  })
  read_protocol (some protocol) = do
    reader ← try_get_num json (some protocol) "min-reader-version" false
    writer ← try_get_num json (some protocol) "min-writer-version" false
    ok (record {
      min_reader_version = to_int64 reader;
      min_writer_version = to_int64 writer;
      reader_features = read_string_array json (get? json (some protocol) "reader-features");
      writer_features = read_string_array json (get? json (some protocol) "writer-features");
    })

  -- What the server says of a table that is staged.
  pub read_staging_table : Option Val → Result StagingTable
  unfolding read_protocol
  read_staging_table root = do
    table_id ← try_get_str json root "table-id" true
    location ← try_get_str json root "location" true
    protocol ← read_protocol (obj? json (get? json root "required-protocol"))
    required ← read_string_map json printer (get? json root "required-properties")
    suggested ← read_string_map json printer (get? json root "suggested-properties")
    ok (record {
      table_id = table_id;
      location = location;
      min_reader_version = protocol.min_reader_version;
      min_writer_version = protocol.min_writer_version;
      reader_features = protocol.reader_features;
      writer_features = protocol.writer_features;
      required_properties = required;
      suggested_properties = suggested;
    })

  -- The request of `CreateTable`; `wire_schema` is `WireSchema`.
  unfoldable pub creation_body : (Text → Result Text) → CommittedTable → String → Result Text
  creation_body wire_schema table table_type = do
    name ← encode (lit table.name)
    location ← encode table.location
    type ← encode (lit table_type)
    columns ← wire_schema table.schema_json
    partition_columns ← json_string_array json printer table.partition_columns
    reader_features ← json_string_array json printer table.reader_features
    writer_features ← json_string_array json printer table.writer_features
    properties ← json_string_map json printer table.properties
    ok (
        lit "{\"name\": "
        ++ name
        ++ lit ", \"location\": "
        ++ location
        ++ lit ", \"table-type\": "
        ++ type
        ++ lit ", \"columns\": "
        ++ columns
        ++ lit ", \"partition-columns\": "
        ++ partition_columns
        ++ lit ", \"protocol\": {\"min-reader-version\": "
        ++ show table.min_reader_version
        ++ lit ", \"min-writer-version\": "
        ++ show table.min_writer_version
        ++ lit ", \"reader-features\": "
        ++ reader_features
        ++ lit ", \"writer-features\": "
        ++ writer_features
        ++ lit "}, \"properties\": "
        ++ properties
        ++ lit ", \"last-commit-timestamp-ms\": "
        ++ show table.last_commit_timestamp_ms
        ++ lit "}")

  module _ (http : Http) (c : Credentials) where
    -- The request of both calls, with a 409 tolerated, and the verdict on its answer.
    unfoldable pub request_creation : String → Text → Exec (Net http) (Option Val)
    request_creation url body =
        Exec.◌>>=◌ (make_request_resp http url c.token body (some 409))
          λ resp. lift (creation_outcome json (json.read resp.body) resp.success)

    unfoldable pub create_staging_table : TableName → Exec (Net http) StagingTable
    unfolding request_creation read_staging_table
    create_staging_table t = Exec.◌>>=◌ (lift (encode (lit t.table_name))) λ name.
        Exec.◌>>=◌
          (request_creation (delta_schema_url c t <> "/staging-tables")
            (lit "{\"name\": " ++ name ++ lit "}"))
          λ root. lift (read_staging_table root)

    unfoldable pub create_table :
        (Text → Result Text) → TableName → CommittedTable → String → Exec (Net http) (Unit {0})
    unfolding request_creation creation_body
    create_table wire_schema t table table_type =
        Exec.◌>>=◌ (lift (creation_body wire_schema table table_type)) λ body.
          Exec.◌>>=◌ (request_creation (delta_schema_url c t <> "/tables") body) λ root. pure tt

    unfoldable pub table_exists : TableName → Exec (Net http) Bool
    table_exists t =
        Exec.◌>>=◌
          (make_request_resp http (c.endpoint <> "/api/2.1/unity-catalog/tables/" <> full_name t)
            c.token [] (some 404))
          λ resp. pure (not (resp.status == 404))
