-- ===== src/Tests/Entry.antt =====
-- The theorems on the choice and the start of a scan at concrete inputs.
use unity_catalog.Base.{ℕ, ◌+◌, ◌≡◌, ◌≢◌, ◌<◌, refl, some, [], true, false, arith}
use unity_catalog.Result.{ok, err, io}
use unity_catalog.Api.Data.{Table}
use unity_catalog.Storage.Gate.{Gate, scan_plan_re_probe, unknown, should_try_scan_plan}
use unity_catalog.Storage.Table.{scan_plan_can_read}
use unity_catalog.Storage.TableEntry.{
  BindData, Scanning, ScanState, by_plan, plan, get_scan_function, init_global,
}
use unity_catalog.Storage.TableEntry.Choice.{
  Chosen, Failed, get_scan_function-Chosen, get_scan_function-waits,
}
use unity_catalog.Storage.TableEntry.Started.{Started, init_global-Started}

-- A server without planned scans; the world is the clock, and each call takes ten milliseconds.
abbrev planless : Scanning
planless = record {
  W = ℕ;
  Inner = Unit {0};
  Bound = Unit {0};
  now = λ w. w;
  plan_table_scan = λ bd w. (err io, w + 10);
  refresh_credentials = λ t w. (ok tt, w + 10);
  internal_attach = λ t w. (ok tt, w + 10);
  lookup_delta = λ t w. (ok tt, w + 10);
  create_secret = λ secret w. (ok tt, w + 10);
  bind_parquet = λ path list w. (ok tt, w + 10);
  adopt = λ bound w. (ok tt, w + 10);
  show = λ n. "";
}

abbrev iceberg : Table
iceberg = record {
  table_id = "id";
  name = "events";
  catalog_name = "c";
  schema_name = "s";
  table_type = "MANAGED";
  data_source_format = "ICEBERG";
  storage_location = "";
  columns = [];
  properties = [];
}

abbrev fresh_gate : Gate
fresh_gate = record {
  use_irc_scan_plan = true;
  scan_plan_state = unknown;
  scan_plan_unavailable_since = 0;
}

abbrev at_zero : ScanState planless
at_zero = record { world = 0; gate = fresh_gate }

abbrev events_plan : BindData
events_plan = record {
  catalog_name = "c";
  schema_name = "s";
  table_name = "events";
  storage_location = "";
  scan_plan_endpoint = "https://uc/irc";
  has_catalog = true;
  fallback = some iceberg;
  filter_json = [];
}

init_global-Started_example : Started planless events_plan at_zero (err io, 10)
init_global-Started_example = init_global-Started planless events_plan at_zero refl

chosen :
    (get_scan_function planless "https://uc/irc" iceberg false at_zero).0 ≡ ok (by_plan events_plan)
unfolding get_scan_function scan_plan_can_read should_try_scan_plan
chosen = refl

get_scan_function-Chosen_example :
    Chosen planless "https://uc/irc" iceberg false at_zero (by_plan events_plan)
get_scan_function-Chosen_example =
    get_scan_function-Chosen planless "https://uc/irc" iceberg false at_zero (by_plan events_plan)
      chosen

plan-Failed : Failed (plan planless events_plan at_zero).0
unfolding plan
plan-Failed = tt

soon : 800_000 < (plan planless events_plan at_zero).1.world + scan_plan_re_probe
unfolding plan
soon = omega arith

get_scan_function-waits_example :
    (get_scan_function planless "https://uc/irc" iceberg false
      (record { world = 800_000; gate = (init_global planless events_plan at_zero).1.gate })).0
    ≢ ok (by_plan events_plan)
get_scan_function-waits_example =
    get_scan_function-waits planless events_plan at_zero 800_000 "https://uc/irc" iceberg false
      events_plan refl refl plan-Failed soon
