-- ===== src/Tests/Create.antt =====
-- The theorems on the creation of a table at concrete inputs.
use unity_catalog.Base.{
  sym, ◌∙◌, text_eq, ◌≡◌, ◌≢◌, ◌↔◌, refl, String, none, some, List, [], ◌∷◌, Bool, true, false,
  Text, lit, str_eq, pos, starts_with,
}
use unity_catalog.Result.{Exception, Result, ok, err, io, invalid_input}
use unity_catalog.Api.Data.{TableName, CommitsResult, StagingTable, no_credentials, no_table}
use unity_catalog.Storage.CreateTable.Location.{comparable_location}
use unity_catalog.Storage.CreateTable.Environment.{Environment, Run, call, expression}
use unity_catalog.Storage.CreateTable.Options.{find_option, managed_options}
use unity_catalog.Storage.CreateTable.Options.Priority.{
  or_next, asked_feature, last_value, last_creatable, managed_options-priority,
}
use unity_catalog.Storage.CreateTable.Registration.{
  register_table, remove_unregistered_version_zero,
}
use unity_catalog.Storage.CreateTable.Registration.Outcome.{Registers, register_table-Registers}
use unity_catalog.Storage.CreateTable.Registration.Removal.{
  removed_files, Unlisted, removed-Unlisted,
}
use unity_catalog.Storage.CreateTable.Flow.{Statement, Settings, create_table}
use unity_catalog.Storage.CreateTable.Flow.Detached.{open_names, create_table-detaches}
use unity_catalog.Storage.CreateTable.Flow.Clean.{create_table-Clean}
use unity_catalog.Tests.Api.{node_json}

cons_ne_nil : (p : Text) (ps : List Text) → p ∷ ps ≢ []
cons_ne_nil p ps = λ q. cc

abbrev staging : StagingTable
staging = record {
  table_id = "id";
  location = "s3://b/t";
  min_reader_version = pos 3;
  min_writer_version = pos 7;
  reader_features = "v2Checkpoint" ∷ [];
  writer_features = "catalogManaged" ∷ [];
  required_properties = ("delta.enableRowTracking", "true") ∷ [];
  suggested_properties = ("delta.enableRowTracking", "false") ∷ [];
}

managed_options-priority_example :
    find_option (λ s. s) "delta.enableRowTracking" (managed_options (λ s. s) staging [])
    ≡ or_next (asked_feature (λ s. s) "delta.enableRowTracking" staging.writer_features) (
        or_next (asked_feature (λ s. s) "delta.enableRowTracking" staging.reader_features) (
          or_next (last_value (λ s. s) "delta.enableRowTracking" staging.required_properties) (
            or_next
              (last_creatable (λ s. s) "delta.enableRowTracking" staging.suggested_properties)
              (find_option (λ s. s) "delta.enableRowTracking" []))))
managed_options-priority_example =
    managed_options-priority (λ s. s) "delta.enableRowTracking" staging []

abbrev loaded_at : String → CommitsResult
loaded_at location = record {
  commits = [];
  table_uuid = "id";
  location = location;
  ratified_version = 0;
  etag = "";
}

-- A server that answers every registration with an error, and has the table at `location`.
abbrev lost_answers : String → Environment
lost_answers location = record {
  W = Unit {0};
  create_staging_table = λ t w. (ok staging, w);
  get_staging_table_credentials = λ id w. (ok no_credentials, w);
  create_table = λ t committed type w. (err io, w);
  table_exists = λ t w. (ok true, w);
  load_table = λ t w. (ok (loaded_at location), w);
  create_secret = λ secret w. (ok tt, w);
  evaluate = λ value w. (ok (some (lit "/tmp/t")), w);
  new_uuid = λ w. (ok "u", w);
  attach = λ info w. (ok tt, w);
  detach = λ name w. (ok tt, w);
  create_delta_table = λ name options w. (ok tt, w);
  read_version_zero = λ location w. (ok [], w);
  glob_version_zero = λ location w. (ok (lit "/tmp/t/_delta_log/0.json" ∷ []), w);
  remove_file = λ path w. (ok tt, w);
}

abbrev start : (location : String) → Run (lost_answers location)
start location = record { world = tt; events = [] }

abbrev orders : TableName
orders = record { catalog_name = "c"; schema_name = "s"; table_name = "orders" }

abbrev is_staged : CommitsResult → Bool
is_staged loaded = str_eq loaded.table_uuid "id"

register_table-Registers_example :
    (((register_table (lost_answers "/") orders no_table "MANAGED" is_staged (start "/")).0 ≡ ok tt)
      ↔ Registers is_staged (err io) (ok (loaded_at "/")))
    × ((e : Exception)
        → (register_table (lost_answers "/") orders no_table "MANAGED" is_staged (start "/")).0
          ≡ err e
        → ◌≡◌ {A = Result (Unit {0})} (err io) (err e))
register_table-Registers_example =
    register_table-Registers (lost_answers "/") orders no_table "MANAGED" is_staged (start "/")

elsewhere_runs :
    removed_files
      (remove_unregistered_version_zero
        (lost_answers "/u")
        orders
        (lit "/tmp/t")
        (start "/u")).events
    ≡ lit "/tmp/t/_delta_log/0.json" ∷ []
unfolding remove_unregistered_version_zero call comparable_location text_eq lit starts_with
elsewhere_runs = refl

removed_elsewhere :
    removed_files
      (remove_unregistered_version_zero
        (lost_answers "/u")
        orders
        (lit "/tmp/t")
        (start "/u")).events
    ≢ []
removed_elsewhere = λ q. cons_ne_nil _ _ (sym elsewhere_runs ∙ q)

removed-Unlisted_example : Unlisted (lost_answers "/u") orders (lit "/tmp/t") tt
removed-Unlisted_example =
    removed-Unlisted (lost_answers "/u") orders (lit "/tmp/t") (start "/u") removed_elsewhere

abbrev statement : Statement
statement = record {
  name = orders;
  options = ("location", expression "'/tmp/t'") ∷ [];
  if_not_exists = true;
}

abbrev settings : Settings
settings = record { catalog = "uc"; aws_region = "eu"; read_only = false }

create_table-detaches_example :
    open_names
      (create_table
        (lost_answers "/")
        node_json
        (λ s. s)
        settings
        statement
        true
        (start "/")).2.events
    ≡ []
create_table-detaches_example =
    create_table-detaches (lost_answers "/") node_json (λ s. s) settings statement true (start "/")

abbrev frozen : Settings
frozen = record settings { read_only = true }

create_table-Clean_example :
    (frozen.read_only ≡ true
      → create_table (lost_answers "/") node_json (λ s. s) frozen statement true (start "/")
        ≡ (err invalid_input, true, start "/"))
    × ((create_table (lost_answers "/") node_json (λ s. s) frozen statement true (start "/")).1
          ≡ false
        → ((create_table (lost_answers "/") node_json (λ s. s) frozen statement true (start "/")).0
            ≡ ok tt)
          × (removed_files
                (create_table
                  (lost_answers "/")
                  node_json
                  (λ s. s)
                  frozen
                  statement
                  true
                  (start "/")).2.events
              ≡ []))
    × (find_option (λ s. s) "location" statement.options ≡ none
        → removed_files
            (create_table
              (lost_answers "/")
              node_json
              (λ s. s)
              frozen
              statement
              true
              (start "/")).2.events
          ≡ [])
create_table-Clean_example =
    create_table-Clean (lost_answers "/") node_json (λ s. s) frozen statement true (start "/")
