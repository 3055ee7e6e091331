-- ===== src/Storage/TableEntry.antt =====
-- src/storage/uc_table_entry.cpp: which scan reads a table, and the start of a planned scan with its
-- fallback to the Delta extension. The callbacks that only hand on to the inner scan are not here.
pub mod Choice
pub mod Fallback
pub mod Started
use Prim.Native.String.{◌++◌ as ◌<>◌}
use unity_catalog.Base.{
  ℕ, suc, String, Option, none, some, List, [], ◌∷◌, Bool, true, false, ◌&&◌, not, str_eq, is_empty,
  if◌then◌else◌, Text,
}
use unity_catalog.Result.{Exception, Result, ok, err, io, interrupt, not_implemented, std_exception}
use unity_catalog.Result.Exec.{Exec, pure, throw, lift, continue, ◌>>=◌, ◌>>◌}
use unity_catalog.Api.Data.{Table}
use unity_catalog.ScanPlan.{ScanPlanStatus, completed, ScanPlanResult}
use unity_catalog.FileList.{MultiFileList, multi_file_list}
use unity_catalog.Storage.Gate.{
  Gate, should_try_scan_plan, mark_scan_plan_available, mark_scan_plan_unavailable,
}
use unity_catalog.Storage.Table.{scan_plan_can_read}

-- `UCScanPlanBindData`, without the catalog's credentials.
pub record BindData : Type 0 where
  pub catalog_name : String
  pub schema_name : String
  pub table_name : String
  pub storage_location : String
  pub scan_plan_endpoint : String
  -- the catalog whose gate is marked is there
  pub has_catalog : Bool
  -- `table` and `lookup_info`, which the Delta fallback needs
  pub fallback : Option Table
  pub filter_json : Text

-- The secret for one prefix of the storage credentials of a plan.
pub record PlanSecret : Type 0 where
  pub name : String
  pub key_id : String
  pub secret : String
  pub session_token : String
  pub region : String
  pub scope : String

-- `UCScanPlanPushdownFilter`: `serialize` is `SerializeFiltersToIRC`.
pub pushdown_filter {ℓ} :
    {Expr : Type ℓ} → (List Expr → Result Text) → List Expr → BindData → BindData
pushdown_filter serialize [] bd = bd
pushdown_filter serialize (f ∷ fs) bd = elim (serialize (f ∷ fs)) [
  | ok json ↦ record bd { filter_json = json }
  | err e ↦ record bd { filter_json = [] }
]

-- `cfg.find(k)`, the empty text where it is missing.
pub get_cfg : List (String × String) → String → String
get_cfg [] key = ""
get_cfg ((k, v) ∷ cfg) key = if str_eq k key then v else get_cfg cfg key

-- What the code calls, on a world `W`. `Inner` is an inner scan that is bound and started.
pub record Scanning : Type 1 where
  pub W : Type 0
  pub Inner : Type 0
  pub Bound : Type 0
  -- the steady clock, in milliseconds
  pub now : W → ℕ
  -- `UCAPI::PlanTableScan`
  pub plan_table_scan : BindData → W → Result ScanPlanResult × W
  pub refresh_credentials : Table → W → Result (Unit {0}) × W
  pub internal_attach : Table → W → Result (Unit {0}) × W
  -- the lookup in the attached Delta catalog, with `ThrowNoDeltaTable` where it finds nothing, and
  -- the Delta table's own `GetScanFunction`
  pub lookup_delta : Table → W → Result Bound × W
  pub create_secret : PlanSecret → W → Result (Unit {0}) × W
  -- `parquet_scan` bound to a path, with the file list that its reader takes over
  pub bind_parquet : String → MultiFileList → W → Result Bound × W
  -- `AdoptInnerScan`
  pub adopt : Bound → W → Result Inner × W
  -- `to_string` of an index
  pub show : ℕ → String

-- `UCScanPlanStatus::COMPLETED`
pub is_completed : ScanPlanStatus → Bool
is_completed completed = true
is_completed _ = false

module _ (env : Scanning) where
  open env use {W, Inner, Bound}

  -- The world, and the gate of the catalog.
  pub record ScanState : Type 0 where
    pub world : W
    pub gate : Gate

  pub on_world : {A : Type 0} → (W → Result A × W) → Exec ScanState A
  on_world op s = let (r, w) = op s.world in (r, record { world = w; gate = s.gate })

  -- `BuildDeltaScan`
  pub build_delta_scan : Table → Exec ScanState Bound
  unfolding on_world
  build_delta_scan table = do
    on_world (env.refresh_credentials table)
    on_world (env.internal_attach table)
    on_world (env.lookup_delta table)

  pub fall_back : Option Table → Exec ScanState Inner
  unfolding build_delta_scan
  fall_back none = throw io
  fall_back (some table) =
      if str_eq table.data_source_format "DELTA"
      then (build_delta_scan table >>= λ bound. on_world (env.adopt bound))
      else throw io

  pub make_secret : BindData → ℕ → String × List (String × String) → PlanSecret
  unfolding get_cfg
  make_secret bd i (prefix, cfg) = record {
    name =
        "__internal_uc_scanplan__"
        <> bd.catalog_name
        <> "__"
        <> bd.schema_name
        <> "__"
        <> bd.table_name
        <> "__"
        <> env.show i;
    key_id = get_cfg cfg "s3.access-key-id";
    secret = get_cfg cfg "s3.secret-access-key";
    session_token = get_cfg cfg "s3.session-token";
    region = get_cfg cfg "client.region";
    scope = prefix;
  }

  pub create_secrets :
      BindData → ℕ → List (String × List (String × String)) → Exec ScanState (Unit {0})
  unfolding make_secret on_world
  create_secrets bd i [] = pure tt
  create_secrets bd i (entry ∷ rest) =
      on_world (env.create_secret (make_secret bd i entry)) >> create_secrets bd (suc i) rest

  -- The parquet scan over the files of a plan.
  pub scan_plan_files : BindData → ScanPlanResult → Exec ScanState Inner
  unfolding create_secrets on_world
  scan_plan_files bd plan = do
    create_secrets bd 0 plan.storage_credentials
    list ← lift (multi_file_list plan)
    bound ← on_world (
        env.bind_parquet
          (if str_eq bd.storage_location "" then "uc://scan_plan" else bd.storage_location) list)
    on_world (env.adopt bound)

  -- The section that the gate's mark is about: the plan, which has to be complete.
  unfoldable pub plan : BindData → Exec ScanState ScanPlanResult
  unfolding on_world is_completed
  plan bd = do
    result ← on_world (env.plan_table_scan bd)
    if is_completed result.status then pure result else throw io

  pub mark_available : BindData → ScanState → ScanState
  mark_available bd s =
      if bd.has_catalog then record s { gate = mark_scan_plan_available s.gate } else s

  pub mark_unavailable : BindData → ScanState → ScanState
  mark_unavailable bd s =
      if bd.has_catalog
      then record s { gate = mark_scan_plan_unavailable (env.now s.world) s.gate }
      else s

  -- Behind the plan: a cancelled query is no failure of the server.
  pub planned : BindData → Result ScanPlanResult × ScanState → Result Inner × ScanState
  unfolding scan_plan_files fall_back mark_available mark_unavailable
  planned bd (ok result, s) = scan_plan_files bd result (mark_available bd s)
  planned bd (err interrupt, s) = (err interrupt, s)
  planned bd (err e, s) = fall_back bd.fallback (mark_unavailable bd s)

  -- `UCScanPlanInitGlobal`
  pub init_global : BindData → Exec ScanState Inner
  unfolding planned plan
  init_global bd s = planned bd (plan bd s)

  -- What reads a table: a planned scan, or the Delta scan that is bound already.
  pub data Scan : Type 0 where
    by_plan : BindData → Scan
    by_delta : Bound → Scan

  pub plan_data : String → Table → BindData
  plan_data endpoint t = record {
    catalog_name = t.catalog_name;
    schema_name = t.schema_name;
    table_name = t.name;
    storage_location = t.storage_location;
    scan_plan_endpoint = endpoint;
    has_catalog = true;
    fallback = some t;
    filter_json = [];
  }

  -- `table.catalog.ShouldTryScanPlan()`
  pub should_try : ScanState → Bool × ScanState
  should_try s =
      let (try, gate) = should_try_scan_plan (env.now s.world) s.gate in
      (try, record { world = s.world; gate = gate })

  pub scan_by_delta : Table → Exec ScanState Scan
  unfolding build_delta_scan
  scan_by_delta t =
      if str_eq t.data_source_format "DELTA"
      then (build_delta_scan t >>= λ bound. pure (by_delta bound))
      else throw not_implemented

  -- Behind the test of the gate, which is asked of tables that a plan can read only.
  pub choose : String → Table → Bool → Bool × ScanState → Result Scan × ScanState
  unfolding plan_data on_world scan_by_delta
  choose endpoint t time_travel (try, s) =
      if try && not time_travel
      then (on_world (env.refresh_credentials t) >> pure (by_plan (plan_data endpoint t))) s
      else scan_by_delta t s

  -- `GetScanFunction`; `time_travel` is an AT clause.
  unfoldable pub get_scan_function : String → Table → Bool → Exec ScanState Scan
  unfolding choose should_try scan_by_delta
  get_scan_function endpoint t time_travel s =
      if scan_plan_can_read t
      then choose endpoint t time_travel (should_try s)
      else scan_by_delta t s
