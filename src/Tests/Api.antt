-- ===== src/Tests/Api.antt =====
-- The theorems on the REST calls at concrete inputs.
use unity_catalog.Base.{
  ℕ, ◌≡◌, ◌≢◌, ◌↔◌, refl, String, Option, none, some, [], ◌∷◌, ◌++◌, Bool, true, false, Text, lit,
  text_eq, str_eq, if◌then◌else◌, pos,
}
use unity_catalog.Result.{traverse, Result, ok, err, entry_already_exists}
use unity_catalog.Json.{Yyjson, Kind, str, num, obj, arr}
use unity_catalog.Http.{Http, Net, begin, make_request_resp, request}
use unity_catalog.Api.Data.{Credentials, TableName, CommittedTable, CommitsResult, no_table}
use unity_catalog.Api.Fields.{try_get, try_get_str, try_get_num}
use unity_catalog.Api.Errors.{check_error, throw_error}
use unity_catalog.Api.Values.{Printer, json_string_array, json_string_map}
use unity_catalog.Api.Calls.{ask}
use unity_catalog.Api.Calls.Answer.{Answers}
use unity_catalog.Api.Calls.Load.{load_table}
use unity_catalog.Api.Calls.Load.Ratified.{Tells, load_table-Tells}
use unity_catalog.Api.Calls.Update.{NewCommit}
use unity_catalog.Api.Calls.Create.{create_table, create_staging_table, creation_body}
use unity_catalog.Api.Calls.Create.Conflict.{
  Posted, Taken, Accepted, create_table-Taken, create_staging_table-Taken,
}
use unity_catalog.Api.WireSchema as WireSchema
use unity_catalog.Api.WireSchema.{Documents, Value}
use unity_catalog.Api.WireSchema.Restore.{append}

-- Two answers: one that reports a taken name, and a table with one commit.
pub data Node : Type 0 where
  taken taken_error taken_message taken_type : Node
  loaded commits commit version time name : Node

abbrev pub field_of : Node → String → Option Node
field_of taken key = if str_eq key "error" then some taken_error else none
field_of taken_error key =
    if str_eq key "message"
    then some taken_message
    else if str_eq key "type"
    then some taken_type
    else none
field_of loaded key = if str_eq key "commits" then some commits else none
field_of commit key =
    if str_eq key "version"
    then some version
    else if str_eq key "file-name"
    then some name
    else some time
field_of _ key = none

abbrev pub kind_of : Node → Kind
kind_of taken = obj
kind_of taken_error = obj
kind_of loaded = obj
kind_of commit = obj
kind_of commits = arr
kind_of version = num
kind_of time = num
kind_of _ = str

abbrev pub node_json : Yyjson
node_json = record {
  Val = Node;
  read = λ body. if text_eq body (lit "taken") then some taken else some loaded;
  kind = kind_of;
  is_int = λ v. true;
  obj_get = field_of;
  get_str = λ v. elim v [
    | taken_message ↦ some "exists"
    | taken_type ↦ some "AlreadyExistsException"
    | name ↦ some "7.uuid.json"
    | _ ↦ none
  ];
  get_uint = λ v. elim v [ version ↦ 7 | _ ↦ 5 ];
  get_sint = λ v. pos 0;
  items = λ v. elim v [ commits ↦ commit ∷ [] | _ ↦ [] ];
  fields = λ v. [];
}

abbrev plain_printer : Printer Node
plain_printer = record { encode = λ s. ok s; val_write = λ v. none; show = λ n. [] }

-- A server that gives one answer to everything.
abbrev answering : ℕ → Bool → Text → Http
answering status success body = record {
  World = Unit {0};
  ready = λ w. (ok tt, w);
  send = λ r w.
      (ok (record { status = status; success = success; body = body; retry_after = none }), w);
  interrupt_check = λ w. (ok tt, w);
  sleep = λ ms w. w;
}

abbrev conflict_http : Http
conflict_http = answering 409 false (lit "taken")

abbrev loaded_http : Http
loaded_http = answering 200 true (lit "loaded")

abbrev login : Credentials
login = record { endpoint = "https://uc"; token = "t"; aws_region = "" }

abbrev orders : TableName
orders = record { catalog_name = "c"; schema_name = "s"; table_name = "orders" }

abbrev at_seven : CommitsResult
at_seven = record {
  commits =
      record {
        version = 7;
        timestamp = pos 5;
        file_name = "7.uuid.json";
        file_size = pos 5;
        file_modification_timestamp = pos 5;
      }
      ∷ [];
  table_uuid = "";
  location = "";
  ratified_version = 7;
  etag = "";
}

orders_load : (load_table node_json loaded_http login orders (begin loaded_http tt)).0 ≡ ok at_seven
unfolding load_table ask make_request_resp request throw_error check_error text_eq lit try_get
    try_get_str try_get_num traverse
orders_load = refl

load_table-Tells_example :
    (root : Option Node) × Answers node_json loaded_http login
      "https://uc/api/2.1/unity-catalog/delta/v1/catalogs/c/schemas/s/tables/orders" []
      (begin loaded_http tt)
      root
    × Tells node_json root at_seven
load_table-Tells_example =
    load_table-Tells node_json loaded_http login orders (begin loaded_http tt) at_seven orders_load

abbrev new_orders : CommittedTable
new_orders = record no_table { name = "orders" }

abbrev keep : Text → Result Text
keep s = ok s

abbrev orders_body : Text
orders_body =
    lit
      "{\"name\": orders, \"location\": , \"table-type\": EXTERNAL, \"columns\": , \"partition-columns\": [], \"protocol\": {\"min-reader-version\": , \"min-writer-version\": , \"reader-features\": [], \"writer-features\": []}, \"properties\": {}, \"last-commit-timestamp-ms\": }"

orders_written : creation_body node_json plain_printer keep new_orders "EXTERNAL" ≡ ok orders_body
unfolding creation_body json_string_array json_string_map traverse lit
orders_written = refl

abbrev tables_url : String
tables_url = "https://uc/api/2.1/unity-catalog/delta/v1/catalogs/c/schemas/s/tables"

abbrev staging_url : String
staging_url = "https://uc/api/2.1/unity-catalog/delta/v1/catalogs/c/schemas/s/staging-tables"

conflict_sent :
    (url : String) (body : Text)
    → Posted node_json plain_printer conflict_http login url body (begin conflict_http tt)
      ≢ err entry_already_exists
unfolding make_request_resp request
conflict_sent url body = λ q. cc

create_table-Taken_example :
    (((create_table node_json plain_printer conflict_http login keep orders new_orders "EXTERNAL"
          (begin conflict_http tt)).0
        ≡ err entry_already_exists)
      ↔ Taken node_json plain_printer conflict_http login (
          Posted node_json plain_printer conflict_http login tables_url orders_body
            (begin conflict_http tt)))
    × (((create_table node_json plain_printer conflict_http login keep orders new_orders "EXTERNAL"
            (begin conflict_http tt)).0
          ≡ ok tt)
        ↔ Accepted node_json plain_printer conflict_http login (
            Posted node_json plain_printer conflict_http login tables_url orders_body
              (begin conflict_http tt)))
create_table-Taken_example =
    create_table-Taken node_json plain_printer conflict_http login keep orders new_orders "EXTERNAL"
      (begin conflict_http tt) orders_body orders_written (conflict_sent tables_url orders_body)

create_staging_table-Taken_example :
    ((create_staging_table node_json plain_printer conflict_http login orders
        (begin conflict_http tt)).0
      ≡ err entry_already_exists)
    ↔ Taken node_json plain_printer conflict_http login (
        Posted node_json plain_printer conflict_http login staging_url
          (lit "{\"name\": " ++ lit "orders" ++ lit "}")
          (begin conflict_http tt))
create_staging_table-Taken_example =
    create_staging_table-Taken node_json plain_printer conflict_http login orders
      (begin conflict_http tt) (lit "orders") refl
      (conflict_sent staging_url (lit "{\"name\": " ++ lit "orders" ++ lit "}"))

abbrev tenth : NewCommit
tenth = record {
  version = 10;
  timestamp = 1;
  file_name = "10.uuid.json";
  file_size = 2;
  file_modification_timestamp = 1;
}

abbrev at_start : Net conflict_http
at_start = begin conflict_http tt

-- A document library in which a new field is put last, and a schema with a list in it.
abbrev last_documents : Documents
last_documents = record {
  parse = λ s. none;
  can_allocate = true;
  put = λ fs key v. append fs (WireSchema.field key v WireSchema.end);
  write = λ v. none;
}

abbrev list_schema : Value
list_schema = WireSchema.obj (
    WireSchema.field "type" (WireSchema.scalar (lit "array")) (
      WireSchema.field "elementType" (WireSchema.scalar (lit "long"))
        (WireSchema.field "containsNull" (WireSchema.scalar (lit "true")) WireSchema.end)))
