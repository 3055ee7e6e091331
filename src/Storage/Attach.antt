-- ===== src/Storage/Attach.antt =====
-- `InternalAttach`, `InternalDetach`, `InternalCheckpoint`, `MarkDirty`, `RefreshCredentials` of
-- src/storage/uc_table_set.cpp and the commit of src/functions/uc_delta_ccv2_commit.cpp, on the state of
-- one table.
pub mod Fresh
pub mod Cases
pub mod ReadOnly
pub mod Reattach
pub mod Steps
pub mod Watermark
use Prim.Native.String.{◌++◌ as ◌<>◌}
use unity_catalog.Base.{
  ℕ, String, Option, none, some, List, [], ◌∷◌, ◌++◌, Bool, true, false, ◌&&◌, not, ◌||◌, ◌==◌,
  str_eq, is_empty, if◌then◌else◌, Text, lit, starts_with, map, ℤ, to_int64,
}
use unity_catalog.Result.{Result, ok, err}
use unity_catalog.Result.Exec.{Exec, pure, throw, lift, continue, ◌>>=◌, ◌>>◌}
use unity_catalog.Api.Data.{Table, TableName, TableCredentials, Commit, CommitsResult}
use unity_catalog.Api.Calls.Update.{NewCommit}
use unity_catalog.Storage.Backfill.{LogFiles, backfill_commits}
use unity_catalog.Storage.Table.{is_catalog_managed}

-- One entry of the log tail that the Delta catalog is attached with.
pub record LogTailEntry : Type 0 where
  pub version : ℤ
  pub timestamp : ℤ
  pub file_name : String
  pub file_size : ℤ
  pub file_modification_timestamp : ℤ

-- `BuildLogTailFromCommits`
pub log_tail_entry : String → Commit → LogTailEntry
log_tail_entry location c = record {
  version = to_int64 c.version;
  timestamp = c.timestamp;
  file_name = location <> "/_delta_log/_staged_commits/" <> c.file_name;
  file_size = c.file_size;
  file_modification_timestamp = c.file_modification_timestamp;
}

-- What the attached catalog is told of a table that the server manages.
pub record Managed : Type 0 where
  pub parent_catalog : String
  pub parent_catalog_schema : String
  pub max_catalog_version : ℤ
  -- empty where there is no such option
  pub log_tail : List LogTailEntry

pub record TableAttachInfo : Type 0 where
  pub name : String
  pub path : String
  pub internal_table_name : String
  pub unity_table_id : String
  pub managed : Option Managed

-- A secret for the table's location.
pub record TableSecret : Type 0 where
  pub name : String
  pub credentials : TableCredentials
  pub region : String
  pub scope : String

-- What the code calls, on the world of the file system.
pub record AttachEnvironment : Type 1 where
  pub files : LogFiles
  pub load_table : TableName → files.W → Result CommitsResult × files.W
  pub update_table :
      TableName → String → String → NewCommit → Option ℕ → files.W → Result String × files.W
  pub get_table_credentials :
      TableName → String → Bool → Bool → files.W → Result TableCredentials × files.W
  pub create_secret : TableSecret → files.W → Result (Unit {0}) × files.W
  pub attach : TableAttachInfo → files.W → Result (Unit {0}) × files.W
  pub detach : String → files.W → Result (Unit {0}) × files.W
  -- `Checkpoint` of the attached database's transactions
  pub checkpoint : Bool → files.W → Result (Unit {0}) × files.W
  -- whether the current transaction has read the attached database
  pub has_transaction : files.W → Bool

-- The catalog that the table is in.
pub record Parent : Type 0 where
  pub name : String
  pub schema : String
  pub aws_region : String
  pub read_only : Bool

module _ (env : AttachEnvironment) (parent : Parent) (t : Table) where
  open env use {files}

  -- `TableInformation`, by what changes. `attached` says that the pointer `internal_attached_database`
  -- is set. Whether DuckDB still has the attachment, which it undoes when a statement is rolled back,
  -- is a matter of the world: `detach` is the call that tolerates its absence.
  pub record TableState : Type 0 where
    pub world : files.W
    pub attached : Bool
    pub is_dirty : Bool
    pub etag : String
    pub backfilled_version : Option ℕ

  unfoldable pub on_world : {A : Type 0} → (files.W → Result A × files.W) → Exec TableState A
  on_world op s = let (r, w) = op s.world in (r, record s { world = w })

  abbrev pub table_name : TableName
  table_name = record {
    catalog_name = t.catalog_name;
    schema_name = t.schema_name;
    table_name = t.name;
  }

  abbrev pub attached_catalog_name : String
  attached_catalog_name =
      "__unity_catalog_internal_" <> parent.name <> "_" <> t.schema_name <> "_" <> t.name

  abbrev pub ask_credentials : files.W → Result TableCredentials × files.W
  ask_credentials =
      env.get_table_credentials table_name t.table_id (is_catalog_managed t) (not parent.read_only)

  abbrev pub table_secret : TableCredentials → TableSecret
  table_secret credentials = record {
    name = "__internal_uc_" <> t.table_id;
    credentials = credentials;
    region = parent.aws_region;
    scope = t.storage_location;
  }

  unfoldable pub refresh_credentials : Exec TableState (Unit {0})
  unfolding on_world
  refresh_credentials s =
      if starts_with (lit t.storage_location) (lit "file://")
      then (ok tt, s)
      else (on_world ask_credentials >>= λ credentials.
            on_world (env.create_secret (table_secret credentials)))
          s

  unfoldable pub set_attached : Bool → Exec TableState (Unit {0})
  set_attached b s = (ok tt, record s { attached = b })

  unfoldable pub set_dirty : Bool → Exec TableState (Unit {0})
  set_dirty b s = (ok tt, record s { is_dirty = b })

  -- `InternalDetach`
  unfoldable pub internal_detach : Exec TableState (Unit {0})
  unfolding on_world set_attached
  internal_detach s =
      if s.attached
      then (on_world (env.detach attached_catalog_name) >> set_attached false) s
      else (ok tt, s)

  -- The backfill, but for a read-only catalog, and what is kept of the commits.
  unfoldable pub take_commits : CommitsResult → Exec TableState (Unit {0})
  take_commits commits s =
      let (watermark, w) =
        if parent.read_only
        then (s.backfilled_version, s.world)
        else backfill_commits files commits.commits s.backfilled_version s.world in
      (ok tt, record s { world = w; etag = commits.etag; backfilled_version = watermark })

  abbrev pub managed_info : CommitsResult → Managed
  managed_info commits = record {
    parent_catalog = parent.name;
    parent_catalog_schema = parent.schema;
    max_catalog_version = to_int64 commits.ratified_version;
    log_tail = map (log_tail_entry t.storage_location) commits.commits;
  }

  unfoldable pub managed_options : Exec TableState (Option Managed)
  unfolding take_commits on_world
  managed_options = if not (is_catalog_managed t) then pure none else do
    commits ← on_world (env.load_table table_name)
    take_commits commits
    pure (some (managed_info commits))

  abbrev pub attach_info : Option Managed → TableAttachInfo
  attach_info managed = record {
    name = attached_catalog_name;
    path = t.storage_location;
    internal_table_name = t.name;
    unity_table_id = t.table_id;
    managed = managed;
  }

  unfoldable pub attach_database : Exec TableState (Unit {0})
  unfolding managed_options on_world set_attached
  attach_database = do
    managed ← managed_options
    on_world (env.attach (attach_info managed))
    set_attached true

  -- A dirty table is detached, but not under a transaction that has read it.
  unfoldable pub detach_dirty : Exec TableState (Unit {0})
  unfolding internal_detach set_dirty
  detach_dirty s =
      if s.is_dirty && not (s.attached && env.has_transaction s.world)
      then (internal_detach >> set_dirty false) s
      else (ok tt, s)

  unfoldable pub attach_unless : Exec TableState (Unit {0})
  unfolding attach_database
  attach_unless s = if s.attached then (ok tt, s) else attach_database s

  unfoldable pub internal_attach : Exec TableState (Unit {0})
  unfolding detach_dirty attach_unless
  internal_attach = detach_dirty >> attach_unless

  -- `InternalCheckpoint`
  unfoldable pub internal_checkpoint : Bool → Exec TableState (Unit {0})
  unfolding refresh_credentials internal_attach on_world
  internal_checkpoint force =
      refresh_credentials >> internal_attach >> on_world (env.checkpoint force)

  unfoldable pub keep_etag : String → Exec TableState (Unit {0})
  keep_etag etag s = (ok tt, record s { etag = etag })

  -- The request of a commit, with the etag and the watermark that are kept.
  unfoldable pub request_commit : NewCommit → Exec TableState String
  unfolding on_world
  request_commit commit s =
      on_world (env.update_table table_name t.table_id s.etag commit s.backfilled_version) s

  -- `UCDeltaCCV2CommitExecute`
  unfoldable pub commit_staged : NewCommit → Exec TableState (Unit {0})
  unfolding request_commit set_dirty keep_etag
  commit_staged commit = request_commit commit >>= λ new_etag. set_dirty true >> keep_etag new_etag
