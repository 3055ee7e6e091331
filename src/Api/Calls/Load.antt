-- ===== src/Api/Calls/Load.antt =====
-- `LoadTable` of src/uc_api.cpp: the commits of a table and the version that they reach.
pub mod Ratified
use unity_catalog.Base.{
  ℕ, String, Option, none, some, List, [], ◌∷◌, true, false, ltb, if◌then◌else◌, to_int64,
}
use unity_catalog.Json.{Yyjson, get?, obj?, arr?, items?}
use unity_catalog.Result.{Result, ok, ◌>>=◌, traverse}
use unity_catalog.Result.Exec as Exec
use unity_catalog.Result.Exec.{Exec, lift}
use unity_catalog.Http.{Http, Net}
use unity_catalog.Api.Data.{Credentials, TableName, Commit, CommitsResult}
use unity_catalog.Api.Fields.{try_get_num, try_get_str}
use unity_catalog.Api.Calls.{delta_table_url, ask}

-- The loop's `max_commit_version`.
pub max_commit_version : ℕ → List Commit → ℕ
max_commit_version m [] = m
max_commit_version m (c ∷ cs) = max_commit_version (if ltb m c.version then c.version else m) cs

pub ratified : ℕ → List Commit → ℕ
unfolding max_commit_version
ratified server_ltv commits =
    let m = max_commit_version 0 commits in if ltb m server_ltv then server_ltv else m

module _ (json : Yyjson) where
  open json use {Val}

  read_commit : Val → Result Commit
  read_commit commit = do
    version ← try_get_num json (some commit) "version" true
    timestamp ← try_get_num json (some commit) "timestamp" true
    file_name ← try_get_str json (some commit) "file-name" true
    file_size ← try_get_num json (some commit) "file-size" true
    modified ← try_get_num json (some commit) "file-modification-timestamp" true
    ok (record {
      version = version;
      timestamp = to_int64 timestamp;
      file_name = file_name;
      file_size = to_int64 file_size;
      file_modification_timestamp = to_int64 modified;
    })

  -- The table as the answer tells it.
  pub read_commits : Option Val → Result CommitsResult
  unfolding read_commit ratified
  read_commits root =
      let metadata = obj? json (get? json root "metadata") in
      do
        etag ← try_get_str json metadata "etag" false
        table_uuid ← try_get_str json metadata "table-uuid" false
        location ← try_get_str json metadata "location" false
        server_ltv ← try_get_num json root "latest-table-version" false
        commits ← traverse read_commit (items? json (arr? json (get? json root "commits")))
        ok (record {
          commits = commits;
          table_uuid = table_uuid;
          location = location;
          ratified_version = ratified server_ltv commits;
          etag = etag;
        })

  module _ (http : Http) (c : Credentials) where
    unfoldable pub load_table : TableName → Exec (Net http) CommitsResult
    unfolding read_commits
    load_table t =
        Exec.◌>>=◌ (ask json http c (delta_table_url c t) []) λ root. lift (read_commits root)
