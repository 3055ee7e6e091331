-- ===== src/Storage/Version.antt =====
-- `TableInformation::GetVersion`, `EntryKey`, `AtClauseKeySuffix` and `EntryFromDeltaLog` of
-- src/storage/uc_table_set.cpp: which entry a query of a table, or of a version of it, is bound to.
pub mod Bound
use Prim.Native.String.{◌++◌ as ◌<>◌}
use unity_catalog.Base.{
  ℕ, String, Text, Option, none, some, Bool, true, false, not, ◌||◌, str_eq, ℤ, if◌then◌else◌,
}
use unity_catalog.Result.{Result, ok, err, catalog_error, invalid_configuration, not_implemented}
use unity_catalog.Result.Exec.{Exec, pure, throw, lift, ◌>>=◌, ◌>>◌}
use unity_catalog.Api.Data.{Table}
use unity_catalog.Storage.Attach.{
  AttachEnvironment, Parent, TableState, refresh_credentials, internal_attach, on_world,
}
use unity_catalog.Storage.Gate.{Gate, should_try_scan_plan}
use unity_catalog.Storage.Table.{scan_plan_can_read, throw_if_interval_columns}
use unity_catalog.Storage.Transaction.{Transaction, get_table_entry, set_table_entry}

-- The AT clause of a query, its value cast to a number or to milliseconds.
pub data AtClause : Type 0 where
  at_version : ℕ → AtClause
  at_timestamp : ℤ → AtClause
  at_other : AtClause

-- `EntryKey`, with the suffix of `AtClauseKeySuffix`; numbers are printed by `to_string`.
module _ (show_version : ℕ → String) (show_timestamp : ℤ → String) where
  unfoldable pub key_suffix : AtClause → Result String
  key_suffix (at_version version) = ok ("@" <> show_version version)
  key_suffix (at_timestamp milliseconds) = ok ("@ts:" <> show_timestamp milliseconds)
  key_suffix at_other = err invalid_configuration

  unfoldable pub with_suffix : String → Result String → Result String
  with_suffix key (ok suffix) = ok (key <> suffix)
  with_suffix key (err e) = err e

  unfoldable pub entry_key : String → String → Option AtClause → Result String
  unfolding key_suffix with_suffix
  entry_key schema name none = ok (schema <> "." <> name)
  entry_key schema name (some at) = with_suffix (schema <> "." <> name) (key_suffix at)

-- What `GetVersion` calls beside an attach, on the same world; `E` is a catalog entry.
module _ (env : AttachEnvironment) (E : Type 0) where
  open env use {files}

  pub record VersionEnvironment : Type 0 where
    pub now : files.W → ℕ
    -- `LookupEntry` in the attached database, and the `UCTableEntry` that is made of what it finds
    pub lookup_entry : Option AtClause → files.W → Result (Option E) × files.W
    pub show_version : ℕ → String
    pub show_timestamp : ℤ → String
    pub lower : Text → Text

module _ (env : AttachEnvironment) (parent : Parent) (t : Table) (E : Type 0)
    (vers : VersionEnvironment env E) (reported : Option E) (unreadable : Bool) where
  -- The table, the query's transaction in the catalog, and the gate of planned scans.
  pub record VersionState : Type 0 where
    pub table : TableState env parent t
    pub transaction : Transaction E
    pub gate : Gate

  unfoldable pub on_table : {A : Type 0} → Exec (TableState env parent t) A → Exec VersionState A
  on_table m s = let (r, table) = m s.table in (r, record s { table = table })

  unfoldable pub entry_from_delta_log : Option AtClause → Exec VersionState (Option E)
  unfolding on_table
  entry_from_delta_log at = on_table (
      refresh_credentials env parent t
      >> internal_attach env parent t
      >> on_world env parent t (vers.lookup_entry at))

  -- `ThrowIfUnreadableColumns`, then the entry.
  unfoldable pub readable : E → Exec VersionState E
  readable entry = if unreadable then throw not_implemented else pure entry

  unfoldable pub store : String → E → Exec VersionState E
  store key entry s =
      let (stored, transaction) = set_table_entry E key entry s.transaction in
      (ok stored, record s { transaction = transaction })

  -- What comes of the Delta log's answer to a query of the current version. Of an entry that differs
  -- from the report the code only logs a warning.
  unfoldable pub current : String → Option E → Option E → Exec VersionState E
  unfolding readable store
  current key report (some entry) = store key entry
  current key (some entry) none = readable entry
  current key none none = throw catalog_error

  -- What comes of it where the query names a version.
  unfoldable pub versioned : String → Option E → Exec VersionState E
  unfolding store
  versioned key (some entry) = store key entry
  versioned key none = throw catalog_error

  -- The entry that the transaction is bound to, or else what comes of the Delta log's.
  unfoldable pub bound_or :
      Option AtClause → (String → Option E → Exec VersionState E) → String → Exec VersionState E
  unfolding entry_from_delta_log
  bound_or at resolve key s = elim (get_table_entry E key s.transaction) [
    | some bound ↦ (ok bound, s)
    | none ↦ (entry_from_delta_log at >>= resolve key) s
  ]

  unfoldable pub resolve_entry :
      Option AtClause → (String → Option E → Exec VersionState E) → Exec VersionState E
  unfolding bound_or
  resolve_entry at resolve =
      lift (entry_key vers.show_version vers.show_timestamp parent.schema t.name at)
      >>= bound_or at resolve

  -- Whether a query of the current version goes by the report: the gate is asked only for a table that
  -- has one and that a planned scan can read.
  unfoldable pub by_report : Option E → Exec VersionState Bool
  by_report none s = (ok false, s)
  by_report (some entry) s =
      let is_delta = str_eq t.data_source_format "DELTA" in
      let (try, gate) = should_try_scan_plan (vers.now s.table.world) s.gate in
      if scan_plan_can_read t
      then (ok (try || not is_delta), record s { gate = gate })
      else (ok (not is_delta), s)

  unfoldable pub current_version : Option E → Bool → Exec VersionState E
  unfolding readable resolve_entry current
  current_version (some entry) true = readable entry
  current_version report reads_report = resolve_entry none (λ key. current key report)

  -- `GetVersion`
  unfoldable pub get_version : Option AtClause → Exec VersionState E
  unfolding by_report current_version resolve_entry versioned
  get_version none =
      lift (throw_if_interval_columns vers.lower t.columns)
      >> by_report reported
      >>= current_version reported
  get_version (some at) =
      lift (throw_if_interval_columns vers.lower t.columns) >> resolve_entry (some at) versioned
