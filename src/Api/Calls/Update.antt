-- ===== src/Api/Calls/Update.antt =====
-- `UpdateTable` of src/uc_api.cpp: a commit is proposed to the server.
use unity_catalog.Base.{
  ℕ, String, Option, none, some, [], ◌++◌, false, Text, lit, str_eq, if◌then◌else◌, to_int64,
}
use unity_catalog.Json.{Yyjson, get?, obj?}
use unity_catalog.Result.{Result, ok, ◌>>=◌}
use unity_catalog.Result.Exec as Exec
use unity_catalog.Result.Exec.{Exec, lift}
use unity_catalog.Http.{Http, Net}
use unity_catalog.Api.Data.{Credentials, TableName}
use unity_catalog.Api.Fields.{try_get_str}
use unity_catalog.Api.Values.{Printer}
use unity_catalog.Api.Calls.{delta_table_url, ask}

-- What `UpdateTable` is told of the commit.
pub record NewCommit : Type 0 where
  pub version : ℕ
  pub timestamp : ℕ
  pub file_name : String
  pub file_size : ℕ
  pub file_modification_timestamp : ℕ

module _ (json : Yyjson) (printer : Printer json.Val) where
  open json use {Val}
  open printer use {encode, show}

  etag_requirement : String → Result Text
  etag_requirement etag = if str_eq etag "" then ok [] else do
    encoded ← encode (lit etag)
    ok (lit ", {\"type\": \"assert-etag\", \"etag\": " ++ encoded ++ lit "}")

  backfill_update : Option ℕ → Text
  backfill_update none = []
  backfill_update (some version) =
      lit ", {\"action\": \"set-latest-backfilled-version\", \"latest-published-version\": "
      ++ show (to_int64 version)
      ++ lit "}"

  add_commit : NewCommit → Text
  add_commit commit =
      lit "{\"action\": \"add-commit\", \"commit\": {\"version\": "
      ++ show (to_int64 commit.version)
      ++ lit ", \"timestamp\": "
      ++ show (to_int64 commit.timestamp)
      ++ lit ", \"file-name\": \""
      ++ lit commit.file_name
      ++ lit "\", \"file-size\": "
      ++ show (to_int64 commit.file_size)
      ++ lit ", \"file-modification-timestamp\": "
      ++ show (to_int64 commit.file_modification_timestamp)
      ++ lit "}}"

  pub update_body : String → String → NewCommit → Option ℕ → Result Text
  unfolding etag_requirement backfill_update add_commit
  update_body table_id etag commit backfill_version = do
    etag_req ← etag_requirement etag
    ok (
        lit "{\"requirements\": [{\"type\": \"assert-table-uuid\", \"uuid\": \""
        ++ lit table_id
        ++ lit "\"}"
        ++ etag_req
        ++ lit "], \"updates\": ["
        ++ add_commit commit
        ++ backfill_update backfill_version
        ++ lit "]}")

  module _ (http : Http) (c : Credentials) where
    -- Returns the new etag.
    unfoldable pub update_table :
        TableName → String → String → NewCommit → Option ℕ → Exec (Net http) String
    unfolding update_body
    update_table t table_id etag commit backfill_version =
        Exec.◌>>=◌ (lift (update_body table_id etag commit backfill_version)) λ body.
          Exec.◌>>=◌ (ask json http c (delta_table_url c t) body)
            λ root. lift (try_get_str json (obj? json (get? json root "metadata")) "etag" false)
