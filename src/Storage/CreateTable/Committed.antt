-- ===== src/Storage/CreateTable/Committed.antt =====
-- `ReadCommittedTable` of src/storage/uc_table_set.cpp: what version 0 of a table's log says of it.
use unity_catalog.Base.{
  String, Option, none, some, List, [], ◌∷◌, ◌++◌, Bool, true, false, ◌&&◌, ◌||◌, ◌==◌, pos, eq_ℤ,
  Text, lit, is_empty, if◌then◌else◌,
}
use unity_catalog.Json.{Yyjson, str, is, get?, obj?, fields?, sint?, str?}
use unity_catalog.Result.{Result, ok, err, io, ◌>>=◌}
use unity_catalog.Api.Data.{CommittedTable, no_table}
use unity_catalog.Api.Fields.{text_of}
use unity_catalog.Api.Values.{read_string_array}

-- `StringUtil::Split` at '\n', with the line that is being read.
pub split_lines : Text → Text → List Text
split_lines line [] = line ∷ []
split_lines line (c ∷ s) =
    if c == 10 then line ∷ split_lines [] s else split_lines (line ++ c ∷ []) s

-- `line.find_first_not_of(" \t\r") == npos`
pub is_blank : Text → Bool
is_blank [] = true
is_blank (c ∷ s) = (c == 32 || c == 9 || c == 13) && is_blank s

module _ (json : Yyjson) where
  open json use {Val}

  -- `ReadJsonStringMap`
  string_fields : List (String × Val) → List (String × String)
  string_fields [] = []
  string_fields ((key, val) ∷ rest) =
      if is json str val then (key, text_of json val) ∷ string_fields rest else string_fields rest

  with_protocol : Option Val → CommittedTable → CommittedTable
  with_protocol none t = t
  with_protocol (some protocol) t = record t {
    min_reader_version = sint? json (get? json (some protocol) "minReaderVersion");
    min_writer_version = sint? json (get? json (some protocol) "minWriterVersion");
    reader_features = read_string_array json (get? json (some protocol) "readerFeatures");
    writer_features = read_string_array json (get? json (some protocol) "writerFeatures");
  }

  first_of : Option Val → Option Val → Option Val
  first_of none written = written
  first_of (some ict) written = some ict

  with_commit_info : Option Val → CommittedTable → CommittedTable
  unfolding first_of
  with_commit_info none t = t
  with_commit_info (some info) t = record t {
    last_commit_timestamp_ms =
        sint? json (
          first_of (get? json (some info) "inCommitTimestamp") (get? json (some info) "timestamp"));
  }

  with_metadata : Option Val → CommittedTable → CommittedTable
  unfolding string_fields
  with_metadata none t = t
  with_metadata (some metadata) t = record t {
    schema_json = elim (str? json (get? json (some metadata) "schemaString")) [
      | none ↦ t.schema_json
      | some schema ↦ lit schema
    ];
    partition_columns = read_string_array json (get? json (some metadata) "partitionColumns");
    properties =
        string_fields (fields? json (obj? json (get? json (some metadata) "configuration")));
  }

  pub read_line : Text → CommittedTable → Result CommittedTable
  unfolding with_protocol with_commit_info with_metadata
  read_line line t = elim (json.read line) [
    | none ↦ err io
    | some root ↦ ok (
        with_metadata (json.obj_get root "metaData") (
          with_commit_info (json.obj_get root "commitInfo")
            (with_protocol (json.obj_get root "protocol") t)))
  ]

  pub read_lines : List Text → CommittedTable → Result CommittedTable
  read_lines [] t = ok t
  read_lines (line ∷ rest) t = elim (is_blank line) [
    | true ↦ read_lines rest t
    | false ↦ read_line line t >>= read_lines rest
  ]

  pub described : CommittedTable → Result CommittedTable
  described t =
      if is_empty t.schema_json
      then err io
      else if eq_ℤ t.last_commit_timestamp_ms (pos 0)
      then err io
      else ok t

  pub read_committed_table : String → Text → Text → Result CommittedTable
  unfolding split_lines read_lines described
  read_committed_table name location contents =
      read_lines (split_lines [] contents) (record no_table { name = name; location = location })
      >>= described
