-- ===== src/Storage/CreateTable/Registration.antt =====
-- `WriteVersionZero`, `RegisterTable`, `RemoveUnregisteredVersionZero`, `StageCredentials` of
-- src/storage/uc_table_set.cpp.
pub mod Outcome
pub mod Removal
use Prim.Native.String.{◌++◌ as ◌<>◌}
use unity_catalog.Base.{
  String, Option, none, some, List, [], ◌∷◌, ◌++◌, Bool, true, false, ◌||◌, not, ◌&&◌, Text, lit,
  text_eq, starts_with, if◌then◌else◌,
}
use unity_catalog.Json.{Yyjson}
use unity_catalog.Result.{
  Exception, Result, ok, err, io, invalid_input, invalid_configuration, not_implemented, binder,
  internal, interrupt, entry_already_exists, catalog_error, std_exception,
}
use unity_catalog.Result.Exec.{Exec, pure, throw, lift, continue, ◌>>=◌, ◌>>◌}
use unity_catalog.Api.Data.{TableName, CommitsResult, StagingTable, CommittedTable}
use unity_catalog.Storage.CreateTable.Location.{comparable_location}
use unity_catalog.Storage.CreateTable.Committed.{read_committed_table}
use unity_catalog.Storage.CreateTable.Environment.{
  Environment, Run, Event, attached, detached, removed, registered, other, Options, AttachInfo,
  Secret, call, call_ok,
}

-- A `CatalogException`.
pub is_catalog_exception : Exception → Bool
is_catalog_exception entry_already_exists = true
is_catalog_exception catalog_error = true
is_catalog_exception _ = false

unfoldable pub is_entry_already_exists : Exception → Bool
is_entry_already_exists entry_already_exists = true
is_entry_already_exists _ = false

pub is_interrupt : Exception → Bool
is_interrupt interrupt = true
is_interrupt _ = false

-- `ComparableLocation(a) == ComparableLocation(b)`
pub same_location : Text → Text → Bool
same_location a b = text_eq (comparable_location a) (comparable_location b)

module _ (env : Environment) where
  open env use {W}

  -- A local location needs no secret.
  unfoldable pub stage_credentials : String → StagingTable → Exec (Run env) (Unit {0})
  stage_credentials region staging =
      if starts_with (lit staging.location) (lit "file://") then pure tt else do
        credentials ← call env other (env.get_staging_table_credentials staging.table_id)
        call env other (
            env.create_secret (record {
              name = "__internal_uc_" <> staging.table_id;
              credentials = credentials;
              region = region;
              scope = lit staging.location;
            }))

  -- The database is detached whichever way the writing ended; where that fails too, the exception
  -- of the writing is the one that is thrown.
  unfoldable pub detach_behind :
      String → Result CommittedTable × Run env → Result CommittedTable × Run env
  detach_behind name (err e, s) = (err e, (call env (detached name) (env.detach name) s).1)
  detach_behind name (ok committed, s) =
      (call env (detached name) (env.detach name) >> pure committed) s

  -- Version 0 written through the attached catalog `name`, and read back.
  unfoldable pub write_log :
      Yyjson → Options → String → String → Text → Exec (Run env) CommittedTable
  write_log json options name table_name location = do
    call env other (env.create_delta_table name options)
    contents ← call env other (env.read_version_zero location)
    lift (read_committed_table json table_name location contents)

  unfoldable pub write_version_zero :
      Yyjson → Options → AttachInfo → String → Text → Exec (Run env) CommittedTable
  unfolding detach_behind write_log
  write_version_zero json options info table_name location = do
    call_ok env (attached info.name) (env.attach info)
    λ s. detach_behind info.name (write_log json options info.name table_name location s)

  -- The server may have registered a table whose registration failed: it is asked.
  unfoldable pub settle : (CommitsResult → Bool) → TableName → Exception → Exec (Run env) (Unit {0})
  settle is_ours t e s =
      let (r, s') = call env other (env.load_table t) s in
      elim r [
        | ok loaded ↦ if is_ours loaded then (ok tt, s') else (err e, s')
        | err x ↦ (err e, s')
      ]

  unfoldable pub register_table :
      TableName → CommittedTable → String → (CommitsResult → Bool) → Exec (Run env) (Unit {0})
  unfolding settle is_interrupt is_catalog_exception
  register_table t committed table_type is_ours s =
      let (r, s') =
        call env (registered t.table_name) (env.create_table t committed table_type) s in
      elim r [
        | ok u ↦ (ok tt, s')
        | err e ↦
            if is_interrupt e || is_catalog_exception e then (err e, s') else settle is_ours t e s'
      ]

  -- The loop over the files, up to the first that cannot be removed.
  unfoldable pub remove_files : List Text → Exec (Run env) (Unit {0})
  remove_files [] = pure tt
  remove_files (path ∷ rest) = call env (removed path) (env.remove_file path) >> remove_files rest

  unfoldable pub remove_version_zero : Text → Exec (Run env) (Unit {0})
  unfolding remove_files
  remove_version_zero location = do
    files ← call env other (env.glob_version_zero location)
    remove_files files

  -- Whether the server has the table of that name at that location.
  unfoldable pub located : TableName → Text → Exec (Run env) Bool
  unfolding same_location
  located t location = do
    loaded ← call env other (env.load_table t)
    pure (same_location (lit loaded.location) location)

  unfoldable pub listed_at : TableName → Text → Exec (Run env) Bool
  unfolding located
  listed_at t location = do
    exists ← call env other (env.table_exists t)
    if exists then located t location else pure false

  -- `RemoveUnregisteredVersionZero`; every exception is caught, and only logged.
  unfoldable pub remove_unregistered_version_zero : TableName → Text → Run env → Run env
  unfolding listed_at remove_version_zero
  remove_unregistered_version_zero t location s =
      ((do listed ← listed_at t location; if listed then pure tt else remove_version_zero location)
        s).1
