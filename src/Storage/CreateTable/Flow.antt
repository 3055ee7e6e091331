-- ===== src/Storage/CreateTable/Flow.antt =====
-- `UCTableSet::CreateTable` of src/storage/uc_table_set.cpp, for a table at a location of the
-- statement's choice and for one that the server allocates.
pub mod Steps
pub mod Detached
pub mod Clean
use Prim.Native.String.{◌++◌ as ◌<>◌}
use unity_catalog.Base.{
  String, Option, none, some, List, [], ◌∷◌, Bool, true, false, ◌&&◌, Text, lit, str_eq,
  if◌then◌else◌,
}
use unity_catalog.Json.{Yyjson}
use unity_catalog.Result.{Exception, Result, ok, err, invalid_input, entry_already_exists}
use unity_catalog.Result.Exec.{Exec, pure, throw, lift, ◌>>=◌, ◌>>◌}
use unity_catalog.Api.Data.{TableName, CommitsResult, StagingTable, CommittedTable}
use unity_catalog.Storage.CreateTable.Location.{external_location}
use unity_catalog.Storage.CreateTable.Environment.{
  Environment, Run, other, Options, OptionValue, constant, AttachInfo, call,
}
use unity_catalog.Storage.CreateTable.Options.{set_option, find_option, managed_options}
use unity_catalog.Storage.CreateTable.Registration.{
  is_entry_already_exists, same_location, stage_credentials, write_version_zero, register_table,
  remove_unregistered_version_zero,
}

-- `BoundCreateTableInfo`, by what is read here.
pub record Statement : Type 0 where
  pub name : TableName
  pub options : Options
  -- `IGNORE_ON_CONFLICT`
  pub if_not_exists : Bool

-- How the statement ended without an exception: with a table that the set has never seen, for which
-- it is marked for a reload, or with one that was there before.
pub data Done : Type 0 where
  created kept : Done

-- A taken name is no error under IF NOT EXISTS.
pub on_conflict : Bool → Exception → Result Done
unfolding is_entry_already_exists
on_conflict if_not_exists e = if if_not_exists && is_entry_already_exists e then ok kept else err e

-- What the statement needs of its catalog.
pub record Settings : Type 0 where
  pub catalog : String
  pub aws_region : String
  pub read_only : Bool

abbrev external_info : String → String → Text → AttachInfo
external_info uuid table_name location = record {
  name = "__unity_catalog_internal_create_" <> uuid;
  path = location;
  options =
      ("type", "Delta") ∷ ("child_catalog_mode", "true") ∷ ("internal_table_name", table_name) ∷ [];
}

abbrev managed_info : Settings → TableName → StagingTable → AttachInfo
managed_info settings t staging = record {
  name = "__unity_catalog_internal_staging_" <> staging.table_id;
  path = lit staging.location;
  options =
      ("type", "Delta")
      ∷ ("child_catalog_mode", "true")
      ∷ ("internal_table_name", t.table_name)
      ∷ ("unity_table_id", staging.table_id)
      ∷ ("parent_catalog", settings.catalog)
      ∷ ("parent_catalog_schema", t.schema_name)
      ∷ ("parent_commit", "true")
      ∷ [];
}

module _ (env : Environment) (json : Yyjson) (lower : String → String) (settings : Settings) where
  open env use {W}

  -- Behind the registration of an external table.
  pub external_registered : Statement → Text → Result (Unit {0}) × Run env → Result Done × Run env
  unfolding on_conflict
  external_registered st location (ok u, s) = (ok created, s)
  external_registered st location (err e, s) =
      (on_conflict st.if_not_exists e, remove_unregistered_version_zero env st.name location s)

  pub write_external : Statement → Text → Exec (Run env) Done
  unfolding external_registered
  write_external st location = do
    uuid ← call env other env.new_uuid
    committed ←
        write_version_zero env json (set_option lower "location" (constant location) st.options)
          (external_info uuid st.name.table_name location) st.name.table_name location
    λ s. external_registered st location (
        register_table env st.name committed "EXTERNAL"
          (λ loaded. same_location (lit loaded.location) location) s)

  pub create_external : Statement → OptionValue → Exec (Run env) Done
  unfolding write_external
  create_external st option = do
    value ← call env other (env.evaluate option)
    location ← lift (external_location value)
    exists ← call env other (env.table_exists st.name)
    if exists
        then lift (on_conflict st.if_not_exists entry_already_exists)
        else write_external st location

  pub managed_registered : Statement → Result (Unit {0}) × Run env → Result Done × Run env
  unfolding on_conflict
  managed_registered st (ok u, s) = (ok created, s)
  managed_registered st (err e, s) = (on_conflict st.if_not_exists e, s)

  pub write_managed : Statement → StagingTable → Exec (Run env) Done
  unfolding managed_registered
  write_managed st staging = do
    stage_credentials env settings.aws_region staging
    committed ←
        write_version_zero env json (managed_options lower staging st.options)
          (managed_info settings st.name staging) st.name.table_name (lit staging.location)
    λ s. managed_registered st (
        register_table env st.name committed "MANAGED"
          (λ loaded. str_eq loaded.table_uuid staging.table_id) s)

  pub with_staging : Statement → Result StagingTable × Run env → Result Done × Run env
  unfolding write_managed on_conflict
  with_staging st (ok staging, s) = write_managed st staging s
  with_staging st (err e, s) = (on_conflict st.if_not_exists e, s)

  pub create_managed : Statement → Exec (Run env) Done
  unfolding with_staging
  create_managed st s = with_staging st (call env other (env.create_staging_table st.name) s)

  pub run_statement : Statement → Exec (Run env) Done
  unfolding create_external create_managed
  run_statement st =
      if settings.read_only
      then throw invalid_input
      else elim (find_option lower "location" st.options) [
        | none ↦ create_managed st
        | some option ↦ create_external st option
      ]

  -- The set's flag `is_loaded` behind the statement, `MarkNeedsReload` included.
  pub after : Bool → Result Done × Run env → Result (Unit {0}) × Bool × Run env
  after is_loaded (ok created, s) = (ok tt, false, s)
  after is_loaded (ok kept, s) = (ok tt, is_loaded, s)
  after is_loaded (err e, s) = (err e, is_loaded, s)

  pub create_table : Statement → Bool → Run env → Result (Unit {0}) × Bool × Run env
  unfolding run_statement after
  create_table st is_loaded s = after is_loaded (run_statement st s)
