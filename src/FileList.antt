-- ===== src/FileList.antt =====
-- `UCMultiFileList` of src/uc_multi_file_list.cpp: the files that a scan plan names, with the delete
-- files of each, listed as far as the plan's tokens are drained.
pub mod Drain
pub mod Construct
use unity_catalog.Base.{
  ℕ, zero, suc, String, Option, none, some, List, [], ◌∷◌, ◌++◌, Bool, true, false, ℤ, is_pos,
  to_nat, get_elem?, is_empty, if◌then◌else◌,
}
use unity_catalog.Result.{Result, ok, err, io, traverse, ◌>>=◌}
use unity_catalog.Result.Exec.{Exec, ◌>>◌}
use unity_catalog.ScanPlan.{DataFile, DeleteFile, FileScanTask, ScanPlanResult}

-- `OpenFileInfo`, with the option `file_size`.
pub record OpenFileInfo : Type 0 where
  pub path : String
  pub file_size : Option ℕ

pub record MultiFileList : Type 0 where
  pub expanded_files : List OpenFileInfo
  pub file_deletes : List (List DeleteFile)
  pub remaining_tokens : List String
  pub all_files_expanded : Bool

pub make_open_file_info : DataFile → OpenFileInfo
make_open_file_info df = record {
  path = df.file_path;
  file_size = if is_pos df.file_size_in_bytes then some (to_nat df.file_size_in_bytes) else none;
}

-- `all_delete_files[ref]`, with a throw where `ref` is out of range.
unfoldable pub delete_file_at : List DeleteFile → ℕ → Result DeleteFile
delete_file_at all_delete_files ref = elim (get_elem? all_delete_files ref) [
  | none ↦ err io
  | some d ↦ ok d
]

-- `AddFileScanTask`; a throw leaves the file listed, without its deletes.
pub add_file_scan_task : FileScanTask → List DeleteFile → Exec MultiFileList (Unit {0})
add_file_scan_task task all_delete_files list =
    let listed = record list {
      expanded_files = list.expanded_files ++ make_open_file_info task.data_file ∷ [];
    } in
    elim (traverse (delete_file_at all_delete_files) task.delete_file_references) [
      | err e ↦ (err e, listed)
      | ok resolved ↦ (ok tt, record listed { file_deletes = list.file_deletes ++ resolved ∷ [] })
    ]

pub add_tasks : List FileScanTask → List DeleteFile → Exec MultiFileList (Unit {0})
add_tasks [] all_delete_files list = (ok tt, list)
add_tasks (task ∷ tasks) all_delete_files list =
    (add_file_scan_task task all_delete_files >> add_tasks tasks all_delete_files) list

abbrev pub empty_list : MultiFileList
empty_list = record {
  expanded_files = [];
  file_deletes = [];
  remaining_tokens = [];
  all_files_expanded = false;
}

-- The constructor: a throw leaves no object.
constructed : ScanPlanResult → Result (Unit {0}) × MultiFileList → Result MultiFileList
constructed plan (err e, list) = err e
constructed plan (ok u, list) = ok (record list {
  remaining_tokens = plan.plan_tasks;
  all_files_expanded = is_empty plan.plan_tasks;
})

pub multi_file_list : ScanPlanResult → Result MultiFileList
unfolding constructed
multi_file_list plan =
    constructed plan (add_tasks plan.file_scan_tasks plan.delete_files empty_list)

-- `W` is the world that `UCAPI::FetchScanTasks` reads a token's tasks from.
module _ (W : Type 0) (fetch : String → W → Result ScanPlanResult × W) where
  abbrev pub Lists : Type 0
  Lists = MultiFileList × W

  -- What a round does with the response behind its token; `again` is the next round.
  pub ingest :
      (Lists → Option (Result Bool × Lists))
      → MultiFileList
      → Result ScanPlanResult × W
      → Option (Result Bool × Lists)
  ingest again list (err e, w) = some (err e, (list, w))
  ingest again list (ok result, w) =
      let queued = record list { remaining_tokens = list.remaining_tokens ++ result.plan_tasks } in
      if is_empty result.file_scan_tasks
      then again (queued, w)
      else (let (r, added) = add_tasks result.file_scan_tasks result.delete_files queued in
          some (r >>= λ _. ok true, (added, w)))

  -- `ExpandNextPath`, with fuel for its rounds: the outer `none` is fuel that ran out.
  pub expand_next_path : ℕ → Lists → Option (Result Bool × Lists)
  expand_next_path zero s = none
  expand_next_path (suc fuel) (list, w) = elim list.remaining_tokens [
    | [] ↦ some (ok false, (list, w))
    | token ∷ tokens ↦
        ingest (expand_next_path fuel) (record list { remaining_tokens = tokens }) (fetch token w)
  ]
