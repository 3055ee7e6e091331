-- ===== src/Api/Errors.antt =====
-- `UCAPIError` and `CheckError` of src/uc_api.cpp, and what its calls make of an error.
pub mod Taken
use unity_catalog.Base.{String, Option, none, some, Bool, false, ◌||◌, if◌then◌else◌, str_eq}
use unity_catalog.Json.{Yyjson, get?, obj?}
use unity_catalog.Result.{Result, ok, err, io, entry_already_exists, ◌>>=◌}
use unity_catalog.Api.Fields.{try_get_str}

-- An error has a code that is not empty.
pub record ApiError : Type 0 where
  pub error_code : String
  pub message : String

pub is_already_exists : ApiError → Bool
is_already_exists e =
    str_eq e.error_code "AlreadyExistsException"
    || str_eq e.error_code "ALREADY_EXISTS"
    || str_eq e.error_code "TABLE_ALREADY_EXISTS"

abbrev or_else : String → String → String
or_else s d = if str_eq s "" then d else s

module _ (json : Yyjson) where
  open json use {Val}

  -- The legacy format: {"error_code": "…", "message": "…"}
  legacy_error : Option Val → Result (Option ApiError)
  legacy_error api_result = do
    error_code ← try_get_str json api_result "error_code" false
    if str_eq error_code "" then ok none else do
      message ← try_get_str json api_result "message" false
      ok (some (record { error_code = error_code; message = or_else message "-" }))

  -- The delta.yaml format: {"error": {"message": "…", "type": "…"}}
  delta_error : Option Val → Option Val → Result (Option ApiError)
  unfolding legacy_error
  delta_error api_result error_obj = do
    message ← try_get_str json error_obj "message" false
    if str_eq message "" then legacy_error api_result else do
      type ← try_get_str json error_obj "type" false
      ok (some (record { error_code = or_else type "error"; message = message }))

  unfoldable pub check_error : Option Val → Result (Option ApiError)
  unfolding delta_error
  check_error api_result = elim (obj? json (get? json api_result "error")) [
    | none ↦ legacy_error api_result
    | some error_obj ↦ delta_error api_result (some error_obj)
  ]

  -- `error.ThrowError(…)` where the response holds an error.
  unfoldable pub throw_error : Option Val → Result (Option Val)
  unfolding check_error
  throw_error root = do error ← check_error root; elim error [ none ↦ ok root | some e ↦ err io ]

  -- What a request that makes a table comes to: a taken name is told apart from the other errors,
  -- and a failure status without an error body is one.
  unfoldable pub creation_outcome : Option Val → Bool → Result (Option Val)
  unfolding check_error
  creation_outcome root success = do
    error ← check_error root
    elim error [
      | none ↦ if success then ok root else err io
      | some e ↦ err (if is_already_exists e then entry_already_exists else io)
    ]
