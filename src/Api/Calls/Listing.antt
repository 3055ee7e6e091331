-- ===== src/Api/Calls/Listing.antt =====
-- `GetTables`, `ParseColumnDefinition` and `GetSchemas` of src/uc_api.cpp. A listing is not checked for
-- an error body.
use Prim.Native.String.{◌++◌ as ◌<>◌}
use unity_catalog.Base.{
  String, Option, none, some, List, [], ◌∷◌, true, false, lit, str_eq, if◌then◌else◌,
}
use mathlib.Core.Option
use unity_catalog.Json.{Yyjson, num, is, get?, items?, fields?}
use unity_catalog.Result.{Result, ok, ◌>>=◌, traverse}
use unity_catalog.Result.Exec as Exec
use unity_catalog.Result.Exec.{Exec, lift, pure}
use unity_catalog.Http.{Http, Net}
use unity_catalog.Api.Data.{Credentials, Column, Table, Schema}
use unity_catalog.Api.Fields.{try_get_num, try_get_str}
use unity_catalog.Api.Calls.{make_request}

-- `properties[key] = value`
pub assign : String → String → List (String × String) → List (String × String)
assign key value [] = (key, value) ∷ []
assign key value ((k, v) ∷ rest) =
    if str_eq k key then (key, value) ∷ rest else (k, v) ∷ assign key value rest

module _ (json : Yyjson) where
  open json use {Val, get_str}

  parse_column_definition : Val → Result Column
  parse_column_definition column_def = do
    name ← try_get_str json (some column_def) "name" true
    type_text ← try_get_str json (some column_def) "type_text" true
    type_json ← try_get_str json (some column_def) "type_json" false
    precision ← try_get_num json (some column_def) "type_precision" false
    scale ← try_get_num json (some column_def) "type_scale" false
    position ← try_get_num json (some column_def) "position" true
    ok (record {
      name = name;
      type_text = lit type_text;
      type_json = type_json;
      precision = precision;
      scale = scale;
      position = position;
      is_partition_column = elim (json.obj_get column_def "partition_index") [
        | none ↦ false
        | some index ↦ is json num index
      ];
    })

  -- The properties that are texts.
  read_table_properties : List (String × Val) → List (String × String) → List (String × String)
  unfolding assign
  read_table_properties [] properties = properties
  read_table_properties ((key, val) ∷ rest) properties =
      read_table_properties rest
        (elim (get_str val) [ none ↦ properties | some value ↦ assign key value properties ])

  parse_table : String → String → Val → Result Table
  unfolding parse_column_definition read_table_properties
  parse_table catalog_name schema_name table = do
    name ← try_get_str json (some table) "name" true
    table_type ← try_get_str json (some table) "table_type" true
    data_source_format ← try_get_str json (some table) "data_source_format" false
    storage_location ← try_get_str json (some table) "storage_location" false
    table_id ← try_get_str json (some table) "table_id" true
    columns ← traverse parse_column_definition (items? json (get? json (some table) "columns"))
    ok (record {
      table_id = table_id;
      name = name;
      catalog_name = catalog_name;
      schema_name = schema_name;
      table_type = table_type;
      data_source_format = data_source_format;
      storage_location = storage_location;
      columns = columns;
      properties = read_table_properties (fields? json (get? json (some table) "properties")) [];
    })

  -- The name of a schema, empty where there is none; the outer `none` is a null pointer assigned to
  -- a `string`, which is what a name that is no text comes to.
  schema_name_of : Option Val → Option String
  schema_name_of none = some ""
  schema_name_of (some name) = get_str name

  parse_schemas : String → List Val → Option (List Schema)
  unfolding schema_name_of
  parse_schemas catalog_name [] = some []
  parse_schemas catalog_name (schema ∷ rest) =
      let more = parse_schemas catalog_name rest in
      elim (schema_name_of (json.obj_get schema "name")) [
        | none ↦ none
        | some name ↦
            Option.map (λ s. record { schema_name = name; catalog_name = catalog_name } ∷ s) more
      ]

  module _ (http : Http) (c : Credentials) where
    unfoldable pub get_tables : String → String → Exec (Net http) (List Table)
    unfolding parse_table
    get_tables catalog_name schema =
        Exec.◌>>=◌
          (make_request json http c
            (c.endpoint <> "/api/2.1/unity-catalog/tables?catalog_name=" <> catalog_name
              <> "&schema_name=" <> schema)
            [])
          λ text. lift (
            traverse (parse_table catalog_name schema)
              (items? json (get? json (json.read text) "tables")))

    unfoldable pub get_schemas : String → Exec (Net http) (Option (List Schema))
    unfolding parse_schemas
    get_schemas catalog_name =
        Exec.◌>>=◌
          (make_request json http c
            (c.endpoint <> "/api/2.1/unity-catalog/schemas?catalog_name=" <> catalog_name) [])
          λ text.
            pure (parse_schemas catalog_name (items? json (get? json (json.read text) "schemas")))
