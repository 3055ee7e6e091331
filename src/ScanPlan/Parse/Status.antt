-- ===== src/ScanPlan/Parse/Status.antt =====
-- What a response of each status may carry, by `ParseScanPlanResponse` of src/uc_api.cpp.
use unity_catalog.Base.{
  ◌≡◌, refl, String, Option, none, some, [], true, Text, Option-cases, inl, inr,
}
use unity_catalog.Json.{Yyjson, get?, items?}
use unity_catalog.Result.{Exception, Result, ok, err, io, ◌>>=◌, traverse}
use unity_catalog.Api.Fields.{try_get_str}
use unity_catalog.ScanPlan.{
  ScanPlanStatus, unknown, completed, submitted, failed, cancelled, ScanPlanResult, empty_result,
  is_completed,
}
use unity_catalog.ScanPlan.Parse.{
  parse_delete_file, parse_task, parse_credential, parse_scan_tasks_payload, parse_failure,
  parse_by_status, status_of, parse_scan_plan_response,
}

-- Nothing to scan.
abbrev pub IsBare : ScanPlanResult → Type 0
IsBare r =
    (r.delete_files ≡ [])
    × (r.file_scan_tasks ≡ [])
    × (r.plan_tasks ≡ [])
    × (r.storage_credentials ≡ [])

-- A result that is completed, or else bare.
pub data Guarded : Result ScanPlanResult → Type 0 where
  throws : (e : Exception) → Guarded (err e)
  completes : (r : ScanPlanResult) → is_completed r.status ≡ true → Guarded (ok r)
  withholds : (r : ScanPlanResult) → IsBare r → Guarded (ok r)

bind-Guarded {ℓ} :
    {A : Type ℓ} (m : Result A) (f : A → Result ScanPlanResult)
    → ((a : A) → Guarded (f a))
    → Guarded (m >>= f)
bind-Guarded (err e) f h = throws e
bind-Guarded (ok a) f h = h a

module _ (json : Yyjson) where
  payload-Guarded :
      (root : Option json.Val) (r : ScanPlanResult)
      → is_completed r.status ≡ true
      → Guarded (parse_scan_tasks_payload json root r)
  unfolding parse_scan_tasks_payload
  payload-Guarded root r h =
      bind-Guarded (traverse (parse_delete_file json) (items? json (get? json root "delete-files")))
        _
        λ deletes.
          bind-Guarded (traverse (parse_task json) (items? json (get? json root "file-scan-tasks")))
            _
            λ tasks.
              bind-Guarded
                (traverse (parse_credential json)
                  (items? json (get? json root "storage-credentials")))
                _ λ creds. completes _ h

  failure-Guarded :
      (error : Option json.Val) (r : ScanPlanResult)
      → IsBare r
      → Guarded (parse_failure json error r)
  unfolding parse_failure
  failure-Guarded none r h = withholds r h
  failure-Guarded (some v) r h =
      bind-Guarded (try_get_str json (some v) _ _) _
        λ message. bind-Guarded (try_get_str json (some v) _ _) _ λ type. withholds _ h

  by_status-Guarded :
      (s : ScanPlanStatus) (root : Option json.Val) (id : String)
      → Guarded (parse_by_status json s root (record empty_result { status = s; plan_id = id }))
  unfolding parse_by_status
  by_status-Guarded failed root id =
      failure-Guarded (get? json root "error") _ (refl, refl, refl, refl)
  by_status-Guarded completed root id = payload-Guarded root _ refl
  by_status-Guarded unknown root id = withholds _ (refl, refl, refl, refl)
  by_status-Guarded submitted root id = withholds _ (refl, refl, refl, refl)
  by_status-Guarded cancelled root id = withholds _ (refl, refl, refl, refl)

  -- Whatever the server sends, a result whose status is not "completed" carries no delete file, no
  -- task, no token and no credential.
  pub parse_scan_plan_response-Guarded :
      (lower : String → String) (json_str : Text)
      → Guarded (parse_scan_plan_response json lower json_str)
  unfolding parse_scan_plan_response
  parse_scan_plan_response-Guarded lower json_str = elim (Option-cases (json.read json_str)) [
    | inl e ↦ rw (e, parse_scan_plan_response) (throws io)
    | inr (root, e) ↦
        rw (e, parse_scan_plan_response)
          (bind-Guarded (try_get_str json (some root) _ _) _ λ status.
            bind-Guarded (try_get_str json (some root) _ _) _
              λ plan_id. by_status-Guarded (status_of json (lower status)) (some root) plan_id)
  ]
