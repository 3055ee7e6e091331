-- ===== src/ScanPlan/Parse.antt =====
-- The scan-plan responses of src/uc_api.cpp, from `ParseCountMap` to `ParseScanPlanResponse`.
pub mod Status
use unity_catalog.Base.{
  ℕ, ◌%◌, ◌^◌, String, Option, none, some, List, [], ◌∷◌, ◌++◌, map, Bool, true, false, Text,
  str_eq, if◌then◌else◌, ℤ, to_int64, minus_one,
}
use unity_catalog.Json.{Yyjson, get?, items?, fields?, sint?}
use unity_catalog.Result.{Result, ok, err, io, ◌>>=◌, traverse}
use unity_catalog.Api.Fields.{try_get_num, try_get_str}
use unity_catalog.ScanPlan.{
  ScanPlanStatus, unknown, completed, submitted, failed, cancelled, DeleteFileType,
  position_deletes, equality_deletes, CountMap, DataFile, empty_data_file, DeleteFile, FileScanTask,
  ScanPlanResult, empty_result,
}

-- `out[key] = value` for the values that have a key; the newest write stands first.
fill_counts : List ℕ → List ℤ → CountMap → CountMap
fill_counts (k ∷ ks) (v ∷ vs) out = fill_counts ks vs ((k, v) ∷ out)
fill_counts ks vs out = out

module _ (json : Yyjson) where
  open json use {Val, get_str, get_uint, get_sint}

  abbrev u32_of : Val → ℕ
  u32_of v = get_uint v % 2 ^ 32

  pub parse_count_map : Option Val → CountMap
  unfolding fill_counts
  parse_count_map none = []
  parse_count_map (some map_val) =
      fill_counts (map u32_of (items? json (json.obj_get map_val "keys")))
        (map get_sint (items? json (json.obj_get map_val "values"))) []

  -- `if (v) out = yyjson_get_sint(v)`
  abbrev sint_or : Option Val → ℤ → ℤ
  sint_or none d = d
  sint_or (some v) d = get_sint v

  pub parse_data_file : Option Val → Result DataFile
  unfolding parse_count_map
  parse_data_file df_val = do
    content ← try_get_str json df_val "content" false
    file_path ← try_get_str json df_val "file-path" true
    file_format ← try_get_str json df_val "file-format" false
    spec_id ← try_get_num json df_val "spec-id" false
    file_size_in_bytes ← try_get_num json df_val "file-size-in-bytes" false
    record_count ← try_get_num json df_val "record-count" false
    ok (record {
      content = content;
      file_path = file_path;
      file_format = file_format;
      spec_id = to_int64 spec_id;
      file_size_in_bytes = to_int64 file_size_in_bytes;
      record_count = to_int64 record_count;
      first_row_id = sint_or (get? json df_val "first-row-id") minus_one;
      column_sizes = parse_count_map (get? json df_val "column-sizes");
      value_counts = parse_count_map (get? json df_val "value-counts");
      null_value_counts = parse_count_map (get? json df_val "null-value-counts");
      nan_value_counts = parse_count_map (get? json df_val "nan-value-counts");
    })

  -- The discriminator; an unknown one is a malformed response.
  pub delete_content : String → Result DeleteFileType
  delete_content content =
      if str_eq content "position-deletes"
      then ok position_deletes
      else if str_eq content "equality-deletes"
      then ok equality_deletes
      else err io

  pub parse_delete_file : Val → Result DeleteFile
  unfolding delete_content
  parse_delete_file del_val = do
    file_path ← try_get_str json (some del_val) "file-path" true
    discriminator ← try_get_str json (some del_val) "content" true
    content ← delete_content discriminator
    file_format ← try_get_str json (some del_val) "file-format" false
    file_size_in_bytes ← try_get_num json (some del_val) "file-size-in-bytes" false
    record_count ← try_get_num json (some del_val) "record-count" false
    ok (record {
      content = content;
      file_path = file_path;
      file_format = file_format;
      file_size_in_bytes = to_int64 file_size_in_bytes;
      record_count = to_int64 record_count;
      equality_ids = map u32_of (items? json (json.obj_get del_val "equality-ids"));
      content_offset = sint_or (json.obj_get del_val "content-offset") minus_one;
      content_size_in_bytes = sint_or (json.obj_get del_val "content-size-in-bytes") minus_one;
    })

  -- A task with no data file keeps the default one.
  task_data_file : Option Val → Result DataFile
  unfolding parse_data_file
  task_data_file none = ok empty_data_file
  task_data_file (some df_val) = parse_data_file (some df_val)

  pub parse_task : Val → Result FileScanTask
  unfolding task_data_file
  parse_task task_val = do
    data_file ← task_data_file (json.obj_get task_val "data-file")
    ok (record {
      data_file = data_file;
      delete_file_references =
          map get_uint (items? json (json.obj_get task_val "delete-file-references"));
    })

  -- The values that are strings.
  strings : List Val → List String
  strings [] = []
  strings (v ∷ vs) = elim (get_str v) [ none ↦ strings vs | some s ↦ s ∷ strings vs ]

  -- `config.emplace(k, v)` for the values that are strings; the first write of a key stands first.
  string_fields : List (String × Val) → List (String × String)
  string_fields [] = []
  string_fields ((k, v) ∷ fs) = elim (get_str v) [
    | none ↦ string_fields fs
    | some s ↦ (k, s) ∷ string_fields fs
  ]

  parse_credential : Val → Result (String × List (String × String))
  unfolding string_fields
  parse_credential cred_val = do
    prefix ← try_get_str json (some cred_val) "prefix" false
    ok (prefix, string_fields (fields? json (json.obj_get cred_val "config")))

  -- `ParseScanTasksPayload`: what a root holds goes behind what the result has.
  pub parse_scan_tasks_payload : Option Val → ScanPlanResult → Result ScanPlanResult
  unfolding parse_task parse_delete_file strings parse_credential
  parse_scan_tasks_payload root result = do
    delete_files ← traverse parse_delete_file (items? json (get? json root "delete-files"))
    tasks ← traverse parse_task (items? json (get? json root "file-scan-tasks"))
    let tokens = strings (items? json (get? json root "plan-tasks"))
    creds ← traverse parse_credential (items? json (get? json root "storage-credentials"))
    ok (record result {
      delete_files = result.delete_files ++ delete_files;
      file_scan_tasks = result.file_scan_tasks ++ tasks;
      plan_tasks = result.plan_tasks ++ tokens;
      storage_credentials = result.storage_credentials ++ creds;
    })

  -- The spelling of a status, in lower case.
  pub status_of : String → ScanPlanStatus
  status_of status_str =
      if str_eq status_str "completed"
      then completed
      else if str_eq status_str "submitted"
      then submitted
      else if str_eq status_str "failed"
      then failed
      else if str_eq status_str "cancelled"
      then cancelled
      else unknown

  -- The error of a failed plan.
  parse_failure : Option Val → ScanPlanResult → Result ScanPlanResult
  parse_failure none result = ok result
  parse_failure (some error_obj) result = do
    message ← try_get_str json (some error_obj) "message" false
    type ← try_get_str json (some error_obj) "type" false
    ok (record result { error_message = message; error_type = type })

  -- What each status goes on to read.
  parse_by_status : ScanPlanStatus → Option Val → ScanPlanResult → Result ScanPlanResult
  unfolding parse_failure
  parse_by_status failed root result = parse_failure (get? json root "error") result
  parse_by_status completed root result = parse_scan_tasks_payload root result
  parse_by_status _ root result = ok result

  -- `ParseScanPlanResponse`, with `StringUtil::Lower`.
  pub parse_scan_plan_response : (String → String) → Text → Result ScanPlanResult
  unfolding parse_by_status status_of
  parse_scan_plan_response lower json_str = elim (json.read json_str) [
    | none ↦ err io
    | some root ↦ (do
      status_str ← try_get_str json (some root) "status" true
      let status = status_of (lower status_str)
      plan_id ← try_get_str json (some root) "plan-id" false
      parse_by_status status (some root)
          (record empty_result { status = status; plan_id = plan_id }))
  ]
