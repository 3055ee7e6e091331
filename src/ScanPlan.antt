-- ===== src/ScanPlan.antt =====
-- The scan-plan data of src/include/uc_api.hpp, as a server-side plan names it.
pub mod Parse
pub mod Poll
use unity_catalog.Base.{ℕ, String, Option, none, List, [], Bool, true, false, ℤ, pos, minus_one}

pub data ScanPlanStatus : Type 0 where
  unknown completed submitted failed cancelled : ScanPlanStatus

pub data DeleteFileType : Type 0 where
  position_deletes equality_deletes : DeleteFileType

-- `unordered_map<uint32_t, int64_t>`, newest write first.
abbrev pub CountMap : Type 0
CountMap = List (ℕ × ℤ)

-- `UCScanPlanDataFile`; the bounds, which nothing reads or writes, are left out.
pub record DataFile : Type 0 where
  pub content : String
  pub file_path : String
  pub file_format : String
  pub spec_id : ℤ
  pub file_size_in_bytes : ℤ
  pub record_count : ℤ
  pub first_row_id : ℤ
  pub column_sizes : CountMap
  pub value_counts : CountMap
  pub null_value_counts : CountMap
  pub nan_value_counts : CountMap

abbrev pub empty_data_file : DataFile
empty_data_file = record {
  content = "";
  file_path = "";
  file_format = "";
  spec_id = pos 0;
  file_size_in_bytes = pos 0;
  record_count = pos 0;
  first_row_id = minus_one;
  column_sizes = [];
  value_counts = [];
  null_value_counts = [];
  nan_value_counts = [];
}

-- `UCScanDeleteFile`
pub record DeleteFile : Type 0 where
  pub content : DeleteFileType
  pub file_path : String
  pub file_format : String
  pub file_size_in_bytes : ℤ
  pub record_count : ℤ
  pub equality_ids : List ℕ
  pub content_offset : ℤ
  pub content_size_in_bytes : ℤ

-- `UCScanPlanFileScanTask`; the references are indices into the delete files of the same response.
pub record FileScanTask : Type 0 where
  pub data_file : DataFile
  pub delete_file_references : List ℕ

-- `UCScanPlanResult`
pub record ScanPlanResult : Type 0 where
  pub status : ScanPlanStatus
  pub plan_id : String
  pub delete_files : List DeleteFile
  pub file_scan_tasks : List FileScanTask
  pub plan_tasks : List String
  pub storage_credentials : List (String × List (String × String))
  pub error_message : String
  pub error_type : String

abbrev pub empty_result : ScanPlanResult
empty_result = record {
  status = unknown;
  plan_id = "";
  delete_files = [];
  file_scan_tasks = [];
  plan_tasks = [];
  storage_credentials = [];
  error_message = "";
  error_type = "";
}

abbrev pub is_submitted : ScanPlanStatus → Bool
is_submitted submitted = true
is_submitted _ = false

abbrev pub is_completed : ScanPlanStatus → Bool
is_completed completed = true
is_completed _ = false
