-- ===== src/FileList/Construct.antt =====
-- The constructor of `UCMultiFileList` of src/uc_multi_file_list.cpp, on a plan that names delete
-- files which the response does not carry, and on one that does not.
use unity_catalog.Base.{
  ℕ, zero, suc, ◌≡◌, refl, ap, List, [], ◌∷◌, map, Bool, true, false, ◌&&◌, length, is_empty, arith,
  ◌⊎◌, inl, inr, ltb,
}
use unity_catalog.Result.{Result, ok, err, io, traverse}
use unity_catalog.ScanPlan.{DeleteFile, FileScanTask, ScanPlanResult}
use unity_catalog.FileList.{
  MultiFileList, delete_file_at, add_file_scan_task, add_tasks, empty_list, constructed,
  multi_file_list,
}
use unity_catalog.FileList.Drain.{
  Entry, Resolves, no_tasks, resolved, add_tasks-holding, file_of, deletes_of,
}

-- Whether each reference of each task is an index into the delete files.
pub refs_in_range : ℕ → List ℕ → Bool
refs_in_range n [] = true
refs_in_range n (ref ∷ refs) = ltb ref n && refs_in_range n refs

pub tasks_in_range : ℕ → List FileScanTask → Bool
tasks_in_range n [] = true
tasks_in_range n (t ∷ ts) = refs_in_range n t.delete_file_references && tasks_in_range n ts

delete_file_at-range :
    (all : List DeleteFile) (ref : ℕ)
    → ((d : DeleteFile) × (delete_file_at all ref ≡ ok d) × (ltb ref (length all) ≡ true))
      ⊎ ((delete_file_at all ref ≡ err io) × (ltb ref (length all) ≡ false))
unfolding delete_file_at
delete_file_at-range [] ref = inr (refl, ground arith)
delete_file_at-range (d ∷ ds) zero = inl (d, refl, ground arith)
delete_file_at-range (d ∷ ds) (suc ref) = elim (delete_file_at-range ds ref) [
  | inl (e, h, g) ↦ inl (e, h, ground arith)
  | inr (h, g) ↦ inr (h, ground arith)
]

resolve-range :
    (all : List DeleteFile) (refs : List ℕ)
    → ((ds : List DeleteFile) × (traverse (delete_file_at all) refs ≡ ok ds)
        × (refs_in_range (length all) refs ≡ true))
      ⊎ ((traverse (delete_file_at all) refs ≡ err io) × (refs_in_range (length all) refs ≡ false))
unfolding traverse refs_in_range
resolve-range all [] = inl ([], refl, refl)
resolve-range all (ref ∷ refs) = elim (delete_file_at-range all ref) [
  | inl (d, h, g) ↦ elim (resolve-range all refs) [
    | inl (ds, k, l) ↦ inl (d ∷ ds, rw (h, k, traverse) refl, rw (g, l) refl)
    | inr (k, l) ↦ inr (rw (h, k, traverse) refl, rw (g, l) refl)
  ]
  | inr (h, g) ↦ inr (rw (h, traverse) refl, rw g refl)
]

-- What becomes of some tasks, on each list.
add_tasks-range :
    (all : List DeleteFile) (tasks : List FileScanTask)
    → ((es : List Entry) × Resolves all tasks es × (tasks_in_range (length all) tasks ≡ true))
      ⊎ (((list : MultiFileList) → (add_tasks tasks all list).0 ≡ err io)
          × (tasks_in_range (length all) tasks ≡ false))
unfolding add_tasks tasks_in_range add_file_scan_task
add_tasks-range all [] = inl ([], no_tasks, refl)
add_tasks-range all (t ∷ ts) = elim (resolve-range all t.delete_file_references) [
  | inl (ds, h, g) ↦ elim (add_tasks-range all ts) [
    | inl (es, r, l) ↦ inl (_, resolved t ds ts es h r, rw (g, l) refl)
    | inr (k, l) ↦ inr (λ list. rw (h, add_tasks, add_file_scan_task) (k _), rw (g, l) refl)
  ]
  | inr (h, g) ↦ inr (λ list. rw (h, add_tasks, add_file_scan_task) refl, rw g refl)
]

failed :
    (plan : ScanPlanResult) (p : Result (Unit {0}) × MultiFileList)
    → p.0 ≡ err io
    → constructed plan p ≡ err io
unfolding constructed
failed plan (ok u, list) h = cc
failed plan (err e, list) h = cc

-- A plan all of whose references are indices into its delete files makes a list that holds each
-- task's file with the delete files that it refers to, in the order of the tasks, and that waits for
-- the plan's tokens; a plan with any other reference makes none, and the error is an IOException.
pub multi_file_list-cases :
    (plan : ScanPlanResult)
    → ((es : List Entry) × Resolves plan.delete_files plan.file_scan_tasks es
        × (multi_file_list plan
            ≡ ok (record {
              expanded_files = map file_of es;
              file_deletes = map deletes_of es;
              remaining_tokens = plan.plan_tasks;
              all_files_expanded = is_empty plan.plan_tasks;
            }))
        × (tasks_in_range (length plan.delete_files) plan.file_scan_tasks ≡ true))
      ⊎ ((multi_file_list plan ≡ err io)
          × (tasks_in_range (length plan.delete_files) plan.file_scan_tasks ≡ false))
unfolding multi_file_list constructed
multi_file_list-cases plan = elim (add_tasks-range plan.delete_files plan.file_scan_tasks) [
  | inl (es, r, h) ↦ inl (es, r, ap (constructed plan) (add_tasks-holding _ _ es empty_list r), h)
  | inr (k, h) ↦ inr (failed plan _ (k empty_list), h)
]
