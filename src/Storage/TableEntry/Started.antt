-- ===== src/Storage/TableEntry/Started.antt =====
-- What the start of a planned scan (src/storage/uc_table_entry.cpp) does, by the server's answer to the
-- planning.
use unity_catalog.Base.{◌≡◌, refl, subst, true}
use unity_catalog.Result.{Exception, Result, ok, err, io, interrupt}
use unity_catalog.ScanPlan.{
  ScanPlanStatus, ScanPlanResult, unknown, completed, submitted, cancelled, failed,
}
use unity_catalog.Storage.Gate.{mark_scan_plan_available, mark_scan_plan_unavailable}
use unity_catalog.Storage.TableEntry.{
  BindData, Scanning, ScanState, on_world, is_completed, plan, init_global,
}
use unity_catalog.Storage.TableEntry.Fallback.{NoFallback, StartedBy, init_global-StartedBy}

module _ (env : Scanning) (bd : BindData) (s : ScanState env) where
  abbrev Available : Type 0
  Available = (init_global env bd s).1.gate ≡ mark_scan_plan_available s.gate

  abbrev Unavailable : env.W → Type 0
  Unavailable w =
      ((init_global env bd s).1.gate ≡ mark_scan_plan_unavailable (env.now w) s.gate)
      × (NoFallback env bd.fallback
          → ((init_global env bd s).0 ≡ err io) × ((init_global env bd s).1.world ≡ w))

  -- By the status of a plan that came back.
  abbrev WithStatus : env.W → ScanPlanStatus → Type 0
  WithStatus w completed = Available
  WithStatus w _ = Unavailable w

  -- By what `UCAPI::PlanTableScan` gave.
  abbrev pub Started : Result ScanPlanResult × env.W → Type 0
  Started (ok result, w) = WithStatus w result.status
  Started (err interrupt, w) =
      init_global env bd s ≡ (err interrupt, record { world = w; gate = s.gate })
  Started (err e, w) = Unavailable w

  abbrev behind : env.W → ScanState env
  behind w = record { world = w; gate = s.gate }

  marks :
      (r : Result ScanPlanResult × ScanState env)
      → plan env bd s ≡ r
      → bd.has_catalog ≡ true
      → StartedBy env bd s r
  marks r p on = subst (StartedBy env bd s) p (init_global-StartedBy env bd s on)

  with_status :
      (result : ScanPlanResult) (w : env.W) (status : ScanPlanStatus)
      → env.plan_table_scan bd s.world ≡ (ok result, w)
      → result.status ≡ status
      → bd.has_catalog ≡ true
      → WithStatus w status
  unfolding plan on_world is_completed
  with_status result w completed h e on = marks (ok result, behind w) (rw (h, e, plan) refl) on
  with_status result w unknown h e on = marks (err io, behind w) (rw (h, e, plan) refl) on
  with_status result w submitted h e on = marks (err io, behind w) (rw (h, e, plan) refl) on
  with_status result w cancelled h e on = marks (err io, behind w) (rw (h, e, plan) refl) on
  with_status result w failed h e on = marks (err io, behind w) (rw (h, e, plan) refl) on

  threw :
      (e : Exception) (w : env.W)
      → env.plan_table_scan bd s.world ≡ (err e, w)
      → plan env bd s ≡ (err e, behind w)
  unfolding plan on_world
  threw e w h = rw (h, plan) refl

  started :
      (r : Result ScanPlanResult × env.W)
      → env.plan_table_scan bd s.world ≡ r
      → bd.has_catalog ≡ true
      → Started r
  started (ok result, w) h on = with_status result w result.status h refl on
  started (err interrupt, w) h on = marks (err interrupt, behind w) (threw interrupt w h) on
  started (err x, w) h on = marks (err x, behind w) (threw x w h) on

  -- Where the catalog is known, by what the planning gave: once a plan with the status "completed"
  -- came back, the catalog's planned scans are marked as available, whatever fails behind it; a
  -- cancelled query marks nothing and is passed on as it is; a plan with any other status, and any
  -- other failure of the planning, marks them as unavailable from then on, and is an IOException, with
  -- nothing else called, where no Delta table can be read instead.
  pub init_global-Started : bd.has_catalog ≡ true → Started (env.plan_table_scan bd s.world)
  init_global-Started on = started (env.plan_table_scan bd s.world) refl on
