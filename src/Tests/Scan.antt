-- ===== src/Tests/Scan.antt =====
-- The theorems on scan plans, file lists and delete filters at concrete inputs.
use unity_catalog.Base.{
  ◌+◌, ℕ, ◌≡◌, refl, none, some, List, [], ◌∷◌, map, length, ◌&&◌, not, ◌⊎◌, lit, String, Bool,
  true, false, str_eq, if◌then◌else◌, pos, arith, ltb,
}
use unity_catalog.Result.{Result, ok, err, io, traverse}
use unity_catalog.Json.{Yyjson, str, obj}
use unity_catalog.Http.{Http, Net, begin}
use unity_catalog.ScanPlan.{
  ScanPlanResult, empty_result, DeleteFile, FileScanTask, empty_data_file, position_deletes,
}
use unity_catalog.ScanPlan.Parse.{parse_scan_plan_response}
use unity_catalog.ScanPlan.Parse.Status.{Guarded, parse_scan_plan_response-Guarded}
use unity_catalog.ScanPlan.Poll.{PlanTarget, plan_table_scan}
use unity_catalog.ScanPlan.Poll.Bounds.{Planned, plan_table_scan-Planned}
use unity_catalog.FileList.{
  delete_file_at, MultiFileList, empty_list, expand_next_path, make_open_file_info, multi_file_list,
}
use unity_catalog.FileList.Drain.{
  Entry, Resolves, no_tasks, resolved, drained, fetched, Expansion, expand_next_path-Expansion,
  file_of, deletes_of,
}
use unity_catalog.FileList.Construct.{tasks_in_range, multi_file_list-cases}
use unity_catalog.DeleteFilter.{PositionDeleteFilter, contains, filter}
use unity_catalog.DeleteFilter.Survivors.{mem, RisesFrom, filter_selects_survivors}
use unity_catalog.DeleteFilter.Build.{Files, build_delete_filter}
use unity_catalog.DeleteFilter.Build.Union.{Builds, expected, build_delete_filter-Builds}
use unity_catalog.Tests.Puffin.{one_byte, two_bitmaps_blob}

-- A server that answers "submitted" to the first request and "completed" to those behind it; the
-- body of a response is its status.
abbrev two_step_http : Http
two_step_http = record {
  World = Bool;
  ready = λ w. (ok tt, w);
  send = λ r w. (
    ok (record {
      status = 200;
      success = true;
      body = if w then lit "completed" else lit "submitted";
      retry_after = none;
    }),
    true,
  );
  interrupt_check = λ w. (ok tt, w);
  sleep = λ ms w. w;
}

data StatusNode : Type 0 where
  response status_field plan_field : StatusNode

abbrev status_json : Yyjson
status_json = record {
  Val = Bool × StatusNode;
  read = λ bytes. elim bytes [ [] ↦ none | c ∷ s ↦ some (ltb c 110, response) ];
  kind = λ v. elim v.1 [ response ↦ obj | _ ↦ str ];
  is_int = λ v. false;
  obj_get = λ v key.
      if str_eq key "status"
      then some (v.0, status_field)
      else if str_eq key "plan-id"
      then some (v.0, plan_field)
      else none;
  get_str = λ v. elim v.1 [
    | status_field ↦ some (if v.0 then "completed" else "submitted")
    | _ ↦ some "p-1"
  ];
  get_uint = λ v. 0;
  get_sint = λ v. pos 0;
  items = λ v. [];
  fields = λ v. [];
}

abbrev target : PlanTarget
target = record {
  scan_plan_endpoint = "https://uc";
  catalog_name = "c";
  schema_name = "s";
  table_name = "t";
  token = "";
}

abbrev fresh : Net two_step_http
fresh = begin two_step_http false

plan_table_scan-Planned_example :
    (r : Result ScanPlanResult × Net two_step_http) × (plan_table_scan status_json
        (λ s. s)
        two_step_http
        target
        (lit "x")
        fresh
      ≡ some r)
    × Planned status_json (λ s. s) two_step_http target fresh r
plan_table_scan-Planned_example =
    plan_table_scan-Planned status_json (λ s. s) two_step_http target (lit "x") fresh

-- A plan whose one token leads to another, which leads to a file with a delete file.
abbrev one_delete : DeleteFile
one_delete = record {
  content = position_deletes;
  file_path = "d.puffin";
  file_format = "puffin";
  file_size_in_bytes = pos 30;
  record_count = pos 2;
  equality_ids = [];
  content_offset = pos 0;
  content_size_in_bytes = pos 30;
}

abbrev one_task : FileScanTask
one_task = record {
  data_file = record empty_data_file { file_path = "a.parquet" };
  delete_file_references = 0 ∷ [];
}

abbrev bad_task : FileScanTask
bad_task = record one_task { delete_file_references = 1 ∷ [] }

abbrev tokens_only : ScanPlanResult
tokens_only = record empty_result { plan_tasks = "second" ∷ [] }

abbrev one_file : ScanPlanResult
one_file = record empty_result { file_scan_tasks = one_task ∷ []; delete_files = one_delete ∷ [] }

abbrev fetch_tasks : String → ℕ → Result ScanPlanResult × ℕ
fetch_tasks token n = (if str_eq token "first" then ok tokens_only else ok one_file, n)

abbrev first_token : MultiFileList
first_token = record empty_list { remaining_tokens = "first" ∷ [] }

abbrev one_entry : List Entry
one_entry = (make_open_file_info one_task.data_file, one_delete ∷ []) ∷ []

one_task-Resolves : Resolves (one_delete ∷ []) (one_task ∷ []) one_entry
unfolding traverse delete_file_at
one_task-Resolves = resolved one_task (one_delete ∷ []) [] [] refl no_tasks

expand_next_path-Expansion_example :
    Expansion ℕ fetch_tasks first_token one_entry
      (expand_next_path ℕ fetch_tasks 3 (first_token, 0))
expand_next_path-Expansion_example =
    expand_next_path-Expansion ℕ fetch_tasks 3 2 first_token 0 one_entry (omega arith) (
      fetched 1 0 0 "first" [] tokens_only [] one_entry refl no_tasks
        (fetched 0 0 0 "second" [] one_file one_entry [] refl one_task-Resolves (drained 0)))

multi_file_list-cases_example :
    ((es : List Entry) × Resolves (one_delete ∷ []) (bad_task ∷ []) es
      × (multi_file_list (record one_file { file_scan_tasks = bad_task ∷ [] })
          ≡ ok (record {
            expanded_files = map file_of es;
            file_deletes = map deletes_of es;
            remaining_tokens = [];
            all_files_expanded = true;
          }))
      × (tasks_in_range 1 (bad_task ∷ []) ≡ true))
    ⊎ ((multi_file_list (record one_file { file_scan_tasks = bad_task ∷ [] }) ≡ err io)
        × (tasks_in_range 1 (bad_task ∷ []) ≡ false))
multi_file_list-cases_example =
    multi_file_list-cases (record one_file { file_scan_tasks = bad_task ∷ [] })

abbrev one_blob_files : Files
one_blob_files = record { read = λ path offset size. ok two_bitmaps_blob; parquet = λ path. err io }

build_delete_filter-Builds_example :
    Builds one_byte one_blob_files
      (expected one_byte one_blob_files "a.parquet" (one_delete ∷ []))
      (build_delete_filter one_byte one_blob_files "a.parquet" (one_delete ∷ []))
build_delete_filter-Builds_example =
    build_delete_filter-Builds one_byte one_blob_files "a.parquet" (one_delete ∷ [])

abbrev two_deleted : PositionDeleteFilter
two_deleted = record { positions = pos 11 ∷ pos 13 ∷ [] }

filter_selects_survivors_example :
    (sel : List ℕ) × (filter 2048 two_deleted (pos 10) 4 ≡ some (length sel, sel))
    × ((j : ℕ) → mem j sel ≡ (ltb j 4 && not (contains two_deleted.positions (pos (10 + j)))))
    × RisesFrom 0 sel
filter_selects_survivors_example =
    filter_selects_survivors 2048 two_deleted 10 4 (omega arith) (omega arith)

parse_scan_plan_response-Guarded_example :
    Guarded (parse_scan_plan_response status_json (λ s. s) (lit "submitted"))
parse_scan_plan_response-Guarded_example =
    parse_scan_plan_response-Guarded status_json (λ s. s) (lit "submitted")
