-- ===== src/Storage/TableEntry/Choice.antt =====
-- Which scan reads a table (src/storage/uc_table_entry.cpp), and what a failed planning does to the
-- next tables that are read.
use unity_catalog.Base.{
  ◌+◌, ◌<◌, ◌≡◌, ◌≢◌, refl, ap, sym, subst, String, Bool, true, false, str_eq, Bool-cases, inl, inr,
}
use unity_catalog.Result.{Result, ok, err, interrupt, ok-injective}
use unity_catalog.Result.Exec.{>>=-eq-ok}
use unity_catalog.Api.Data.{Table}
use unity_catalog.ScanPlan.{ScanPlanResult}
use unity_catalog.Storage.Table.{scan_plan_can_read}
use unity_catalog.Storage.Gate.{
  scan_plan_re_probe, should_try_scan_plan, mark_scan_plan_unavailable,
}
use unity_catalog.Storage.Gate.Window.{blocked}
use unity_catalog.Storage.TableEntry.{
  BindData, Scanning, ScanState, Scan, by_plan, by_delta, on_world, build_delta_scan, plan,
  plan_data, should_try, scan_by_delta, choose, get_scan_function, init_global,
}
use unity_catalog.Storage.TableEntry.Fallback.{StartedBy, init_global-StartedBy}

module _ (env : Scanning) (endpoint : String) (t : Table) where
  -- A Delta scan is bound for a DELTA table only.
  scan_by_delta-eq-ok :
      (s : ScanState env) (scan : Scan env)
      → (scan_by_delta env t s).0 ≡ ok scan
      → (str_eq t.data_source_format "DELTA" ≡ true) × (bound : env.Bound) × (scan ≡ by_delta bound)
  unfolding scan_by_delta
  scan_by_delta-eq-ok s scan h = elim (Bool-cases (str_eq t.data_source_format "DELTA")) [
    | inl e ↦
        let (bound, s', q, h1) =
          >>=-eq-ok (build_delta_scan env t) _ s (rw (e, scan_by_delta) at h) in
        (e, bound, sym (ok-injective h1))
    | inr e ↦ absurd (cc (rw (e, scan_by_delta) at h))
  ]

  -- What a chosen scan says of the table and of the gate.
  abbrev pub Chosen : Bool → ScanState env → Scan env → Type 0
  Chosen time_travel s (by_plan bd) =
      (scan_plan_can_read t ≡ true)
      × (time_travel ≡ false)
      × ((should_try_scan_plan (env.now s.world) s.gate).0 ≡ true)
      × (bd ≡ plan_data env endpoint t)
  Chosen time_travel s (by_delta bound) = str_eq t.data_source_format "DELTA" ≡ true

  delta-Chosen :
      (time_travel : Bool) (s s' : ScanState env) (scan : Scan env)
      → (scan_by_delta env t s').0 ≡ ok scan
      → Chosen time_travel s scan
  delta-Chosen time_travel s s' (by_delta bound) h = (scan_by_delta-eq-ok s' (by_delta bound) h).0
  delta-Chosen time_travel s s' (by_plan bd) h =
      let (e, bound, q) = scan_by_delta-eq-ok s' (by_plan bd) h in absurd (cc q)

  choose-Chosen :
      (time_travel try : Bool) (s s' : ScanState env) (scan : Scan env)
      → scan_plan_can_read t ≡ true
      → (should_try_scan_plan (env.now s.world) s.gate).0 ≡ try
      → (choose env endpoint t time_travel (try, s')).0 ≡ ok scan
      → Chosen time_travel s scan
  unfolding choose
  choose-Chosen false true s s' scan can e h =
      let (u, s'', q, h1) = >>=-eq-ok (on_world env (env.refresh_credentials t)) _ s' h in
      subst (Chosen false s) (ok-injective h1) (can, refl, e, refl)
  choose-Chosen true true s s' scan can e h = delta-Chosen true s s' scan h
  choose-Chosen time_travel false s s' scan can e h = delta-Chosen time_travel s s' scan h

  -- A table is read by a planned scan only if a plan can read it, the gate lets it through, and the
  -- query reads the current version; by the Delta extension only if its format is DELTA.
  pub get_scan_function-Chosen :
      (time_travel : Bool) (s : ScanState env) (scan : Scan env)
      → (get_scan_function env endpoint t time_travel s).0 ≡ ok scan
      → Chosen time_travel s scan
  unfolding get_scan_function should_try
  get_scan_function-Chosen time_travel s scan h = elim (Bool-cases (scan_plan_can_read t)) [
    | inl can ↦
        choose-Chosen time_travel (should_try env s).0 s (should_try env s).1 scan can refl
          (rw (can, get_scan_function) at h)
    | inr cannot ↦ delta-Chosen time_travel s s scan (rw (cannot, get_scan_function) at h)
  ]

-- The planning of a query failed, and not because it was cancelled.
abbrev pub Failed : Result ScanPlanResult → Type 0
Failed (ok result) = ⊥
Failed (err interrupt) = ⊥
Failed (err e) = Unit

gate_of_failure :
    (env : Scanning) (bd : BindData) (s : ScanState env) (r : Result ScanPlanResult × ScanState env)
    → Failed r.0
    → StartedBy env bd s r
    → (init_global env bd s).1.gate ≡ mark_scan_plan_unavailable (env.now r.1.world) s.gate
gate_of_failure env bd s (err interrupt, s') f h = absurd f
gate_of_failure env bd s (ok result, s') f h = absurd f
gate_of_failure env bd s (err e, s') f h = h.0

-- Where planned scans are asked for: after the planning of one query failed, no table of the catalog
-- is read by a planned scan in the fifteen minutes from then on, whatever happens to the world in
-- between, as long as the gate is left alone.
pub get_scan_function-waits :
    (env : Scanning) (bd : BindData) (s : ScanState env) (w : env.W) (endpoint : String) (t : Table)
    (time_travel : Bool) (bd' : BindData)
    → bd.has_catalog ≡ true
    → s.gate.use_irc_scan_plan ≡ true
    → Failed (plan env bd s).0
    → env.now w < env.now (plan env bd s).1.world + scan_plan_re_probe
    → (get_scan_function env endpoint t time_travel
        (record { world = w; gate = (init_global env bd s).1.gate })).0
      ≢ ok (by_plan bd')
get_scan_function-waits env bd s w endpoint t time_travel bd' known on f early = λ h.
    let s' : ScanState env = record { world = w; gate = (init_global env bd s).1.gate } in
    let chosen = get_scan_function-Chosen env endpoint t time_travel s' (by_plan bd') h in
    let closed = blocked s.gate (env.now (plan env bd s).1.world) (env.now w) on early in
    let gate = gate_of_failure env bd s (plan env bd s) f (init_global-StartedBy env bd s known) in
    cc (chosen.2, ap (λ r. r.0) closed, gate)
