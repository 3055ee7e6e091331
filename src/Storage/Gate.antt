-- ===== src/Storage/Gate.antt =====
-- The gate of planned scans of src/storage/unity_catalog.cpp. The time is a number of milliseconds of
-- the steady clock, given to each operation that reads the clock.
pub mod Window
use unity_catalog.Base.{ℕ, ◌-◌, ◌*◌, Bool, true, false, ltb, List, [], ◌∷◌}

pub data ScanPlanAvailability : Type 0 where
  unknown available unavailable : ScanPlanAvailability

pub record Gate : Type 0 where
  pub use_irc_scan_plan : Bool
  pub scan_plan_state : ScanPlanAvailability
  pub scan_plan_unavailable_since : ℕ

abbrev pub scan_plan_re_probe : ℕ
scan_plan_re_probe = 15 * 60 * 1000

-- The section under the lock.
try_state : ℕ → Gate → Bool × Gate
try_state now g = elim g.scan_plan_state [
  | unknown ↦ (true, g)
  | available ↦ (true, g)
  | unavailable ↦ elim (ltb (now - g.scan_plan_unavailable_since) scan_plan_re_probe) [
    | true ↦ (false, g)
    | false ↦ (true, record g { scan_plan_state = unknown })
  ]
]

unfoldable pub should_try_scan_plan : ℕ → Gate → Bool × Gate
unfolding try_state
should_try_scan_plan now g = elim g.use_irc_scan_plan [
  | false ↦ (false, g)
  | true ↦ try_state now g
]

pub mark_scan_plan_available : Gate → Gate
mark_scan_plan_available g = record g { scan_plan_state = available }

pub mark_scan_plan_unavailable : ℕ → Gate → Gate
mark_scan_plan_unavailable now g = record g {
  scan_plan_state = unavailable;
  scan_plan_unavailable_since = now;
}
