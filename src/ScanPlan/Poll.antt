-- ===== src/ScanPlan/Poll.antt =====
-- `UCAPI::PlanTableScan`, `FetchPlanningResult`, `FetchScanTasks` and `CancelPlan` of
-- src/uc_api.cpp. The polling loop takes fuel; the outer `none` is fuel that ran out.
pub mod Bounds
use Prim.Native.String.{◌++◌ as ◌<>◌}
use unity_catalog.Base.{
  ℕ, zero, suc, ◌+◌, ◌-◌, ◌*◌, String, Option, none, some, List, [], ◌∷◌, ◌++◌, Bool, true, false,
  Text, lit, ◌||◌, str_eq, is_empty, if◌then◌else◌, ◌==◌, ltb, leb, min, max, ℤ, minus_one, is_neg,
  to_nat,
}
use unity_catalog.Json.{Yyjson}
use unity_catalog.Result.{Exception, Result, ok, err, io}
use unity_catalog.Http.{
  Http, Net, Request, Response, delete, make_request_resp, parse_retry_after_ms, request, pause,
  interrupted,
}
use unity_catalog.ScanPlan.{ScanPlanStatus, completed, ScanPlanResult, empty_result, is_submitted}
use unity_catalog.ScanPlan.Parse.{parse_scan_plan_response, parse_scan_tasks_payload}

abbrev pub poll_budget_ms : ℕ
poll_budget_ms = 5 * 60 * 1000

abbrev pub poll_min_sleep_ms : ℕ
poll_min_sleep_ms = 100

abbrev pub poll_max_sleep_ms : ℕ
poll_max_sleep_ms = 1000

abbrev pub poll_max_retry_after_ms : ℕ
poll_max_retry_after_ms = 60 * 1000

-- Where a table's plans are asked for.
pub record PlanTarget : Type 0 where
  pub scan_plan_endpoint : String
  pub catalog_name : String
  pub schema_name : String
  pub table_name : String
  pub token : String

abbrev pub table_url : PlanTarget → String
table_url t =
    t.scan_plan_endpoint <> "/v1/catalogs/" <> t.catalog_name <> "/namespaces/" <> t.schema_name
    <> "/tables/" <> t.table_name

-- The variables of the polling loop.
pub record PollState : Type 0 where
  pub result : ScanPlanResult
  pub retry_after_ms : ℤ
  pub backoff_ms : ℕ
  pub elapsed_ms : ℕ

-- The sleep of one round: the server's wish or the backoff, clamped.
pub sleep_of : PollState → ℕ
sleep_of s =
    min
      (max (if is_neg s.retry_after_ms then s.backoff_ms else to_nat s.retry_after_ms)
        poll_min_sleep_ms)
      poll_max_retry_after_ms

-- Each round takes at least `poll_min_sleep_ms` off the budget, and one more finds it spent.
abbrev pub poll_fuel : ℕ
poll_fuel = 3001

pub start : ScanPlanResult → ℤ → PollState
start result retry_after_ms = record {
  result = result;
  retry_after_ms = retry_after_ms;
  backoff_ms = poll_min_sleep_ms;
  elapsed_ms = 0;
}

-- `plan_task` with `"` and `\` escaped.
pub escape_token : Text → Text
escape_token [] = []
escape_token (c ∷ s) =
    let rest = c ∷ escape_token s in if c == 34 || c == 92 then 92 ∷ rest else rest

module _ (json : Yyjson) (lower : String → String) (http : Http) (t : PlanTarget) where
  -- What `CancelPlan` sends, if anything; its outcome is not looked at.
  pub cancel_plan : String → Net http → Net http
  cancel_plan plan_id n =
      if str_eq plan_id ""
      then n
      else (request http
          (record {
            method = delete;
            url = table_url t <> "/plan/" <> plan_id;
            token = t.token;
            body = [];
          })
          n).1

  -- The plan of a response, with its `Retry-After`.
  read_plan : Result Response × Net http → Result (ScanPlanResult × ℤ) × Net http
  read_plan (err e, n) = (err e, n)
  read_plan (ok resp, n) = elim (parse_scan_plan_response json lower resp.body) [
    | err e ↦ (err e, n)
    | ok result ↦ (ok (result, parse_retry_after_ms resp), n)
  ]

  pub fetch_planning_result : String → Net http → Result (ScanPlanResult × ℤ) × Net http
  fetch_planning_result plan_id n =
      read_plan (make_request_resp http (table_url t <> "/plan/" <> plan_id) t.token [] none n)

  -- The chunked sleep: `for (slept = 0; slept < sleep_ms; slept += 100)`, with fuel; `chunk` is one
  -- round of it, behind the check for a cancelled query.
  chunk :
      (Net http → Option (Result (Unit {0}) × Net http))
      → ℕ
      → Result (Unit {0}) × Net http
      → Option (Result (Unit {0}) × Net http)
  chunk rest ms (err e, n) = some (err e, n)
  chunk rest ms (ok u, n) = rest (pause http ms n)

  pub sleep_chunks : ℕ → ℕ → ℕ → Net http → Option (Result (Unit {0}) × Net http)
  sleep_chunks zero slept sleep_ms n = if ltb slept sleep_ms then none else some (ok tt, n)
  sleep_chunks (suc fuel) slept sleep_ms n = elim (ltb slept sleep_ms) [
    | false ↦ some (ok tt, n)
    | true ↦
        chunk (sleep_chunks fuel (slept + poll_min_sleep_ms) sleep_ms)
          (min poll_min_sleep_ms (sleep_ms - slept)) (interrupted http n)
  ]

  -- How the loop ends: with a result, or by a throw; `plan_id` is that of the result it holds.
  pub record LoopEnd : Type 0 where
    pub outcome : Result ScanPlanResult
    pub plan_id : String
    pub net : Net http

  abbrev pub thrown : Exception → PollState → Net http → Option LoopEnd
  thrown e s n = some (record { outcome = err e; plan_id = s.result.plan_id; net = n })

  after_fetch :
      PollState
      → ℕ
      → (PollState → Net http → Option LoopEnd)
      → Result (ScanPlanResult × ℤ) × Net http
      → Option LoopEnd
  after_fetch s sleep_ms rest (err e, n) = thrown e s n
  after_fetch s sleep_ms rest (ok (result, retry_after_ms), n) =
      rest
        (record {
          result = result;
          retry_after_ms = retry_after_ms;
          backoff_ms = min (s.backoff_ms * 2) poll_max_sleep_ms;
          elapsed_ms = s.elapsed_ms + sleep_ms;
        })
        n

  after_sleep :
      PollState
      → ℕ
      → (PollState → Net http → Option LoopEnd)
      → Option (Result (Unit {0}) × Net http)
      → Option LoopEnd
  after_sleep s sleep_ms rest none = none
  after_sleep s sleep_ms rest (some (err e, n)) = thrown e s n
  after_sleep s sleep_ms rest (some (ok u, n)) =
      after_fetch s sleep_ms rest (fetch_planning_result s.result.plan_id n)

  -- One round of the loop, while the plan is only submitted.
  poll_round : PollState → (PollState → Net http → Option LoopEnd) → Net http → Option LoopEnd
  poll_round s rest n = elim (leb poll_budget_ms s.elapsed_ms) [
    | true ↦ thrown io s n
    | false ↦ after_sleep s (sleep_of s) rest (sleep_chunks (sleep_of s) 0 (sleep_of s) n)
  ]

  abbrev pub finished : PollState → Net http → Option LoopEnd
  finished s n = some (record { outcome = ok s.result; plan_id = s.result.plan_id; net = n })

  pub poll_loop : ℕ → PollState → Net http → Option LoopEnd
  poll_loop zero s n = if is_submitted s.result.status then none else finished s n
  poll_loop (suc fuel) s n = elim (is_submitted s.result.status) [
    | false ↦ finished s n
    | true ↦ poll_round s (poll_loop fuel) n
  ]

  -- Behind the loop: a throw cancels the plan and goes on.
  pub close : LoopEnd → Result ScanPlanResult × Net http
  close e = elim e.outcome [
    | ok result ↦ (ok result, e.net)
    | err x ↦ (err x, cancel_plan e.plan_id e.net)
  ]

  closed : Option LoopEnd → Option (Result ScanPlanResult × Net http)
  unfolding close
  closed none = none
  closed (some e) = some (close e)

  planned : Result (ScanPlanResult × ℤ) × Net http → Option (Result ScanPlanResult × Net http)
  unfolding closed
  planned (err e, n) = some (err e, n)
  planned (ok (result, retry_after_ms), n) =
      closed (poll_loop poll_fuel (start result retry_after_ms) n)

  pub plan_table_scan : Text → Net http → Option (Result ScanPlanResult × Net http)
  unfolding planned
  plan_table_scan filter_json n =
      let body =
        if is_empty filter_json
        then lit "{\"case-sensitive\":false}"
        else lit "{\"case-sensitive\":false,\"filter\":" ++ filter_json ++ lit "}" in
      planned (read_plan (make_request_resp http (table_url t <> "/plan") t.token body none n))

  -- The tasks behind a token, of a response that has no status.
  scan_tasks : Result Response × Net http → Result ScanPlanResult × Net http
  scan_tasks (err e, n) = (err e, n)
  scan_tasks (ok resp, n) = elim (json.read resp.body) [
    | none ↦ (err io, n)
    | some root ↦
        (parse_scan_tasks_payload json (some root) (record empty_result { status = completed }), n)
  ]

  pub fetch_scan_tasks : Text → Net http → Result ScanPlanResult × Net http
  unfolding scan_tasks
  fetch_scan_tasks plan_task n =
      let body = lit "{\"plan-task\":\"" ++ escape_token plan_task ++ lit "\"}" in
      scan_tasks (make_request_resp http (table_url t <> "/tasks") t.token body none n)
