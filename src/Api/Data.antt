-- ===== src/Api/Data.antt =====
-- What the server reports and is told of schemas, tables and commits: the structs of
-- src/include/uc_api.hpp. A text that the code only compares or passes on is a `String`.
use unity_catalog.Base.{ℕ, ℤ, pos, Bool, String, List, [], Text}

-- `UCCredentials`, without the settings of planned scans.
pub record Credentials : Type 0 where
  pub endpoint : String
  pub token : String
  pub aws_region : String

-- The names that a call is about.
pub record TableName : Type 0 where
  pub catalog_name : String
  pub schema_name : String
  pub table_name : String

-- `UCAPIColumnDefinition`
pub record Column : Type 0 where
  pub name : String
  pub type_text : Text
  pub type_json : String
  pub precision : ℕ
  pub scale : ℕ
  pub position : ℕ
  pub is_partition_column : Bool

-- `UCAPITable`, without two fields that nothing sets or reads; the keys of `properties` differ from
-- each other.
pub record Table : Type 0 where
  pub table_id : String
  pub name : String
  pub catalog_name : String
  pub schema_name : String
  pub table_type : String
  pub data_source_format : String
  pub storage_location : String
  pub columns : List Column
  pub properties : List (String × String)

-- `UCAPISchema`
pub record Schema : Type 0 where
  pub schema_name : String
  pub catalog_name : String

-- `UCAPITableCredentials`
pub record TableCredentials : Type 0 where
  pub key_id : String
  pub secret : String
  pub session_token : String

abbrev pub no_credentials : TableCredentials
no_credentials = record { key_id = ""; secret = ""; session_token = "" }

-- `UCAPICommit`
pub record Commit : Type 0 where
  pub version : ℕ
  pub timestamp : ℤ
  pub file_name : String
  pub file_size : ℤ
  pub file_modification_timestamp : ℤ

-- `UCAPICommitsResult`
pub record CommitsResult : Type 0 where
  pub commits : List Commit
  pub table_uuid : String
  pub location : String
  pub ratified_version : ℕ
  pub etag : String

-- `UCAPIStagingTable`
pub record StagingTable : Type 0 where
  pub table_id : String
  pub location : String
  pub min_reader_version : ℤ
  pub min_writer_version : ℤ
  pub reader_features : List String
  pub writer_features : List String
  pub required_properties : List (String × String)
  pub suggested_properties : List (String × String)

-- `UCAPICommittedTable`
pub record CommittedTable : Type 0 where
  pub name : String
  pub location : Text
  pub schema_json : Text
  pub partition_columns : List String
  pub min_reader_version : ℤ
  pub min_writer_version : ℤ
  pub reader_features : List String
  pub writer_features : List String
  pub properties : List (String × String)
  pub last_commit_timestamp_ms : ℤ

abbrev pub no_table : CommittedTable
no_table = record {
  name = "";
  location = [];
  schema_json = [];
  partition_columns = [];
  min_reader_version = pos 0;
  min_writer_version = pos 0;
  reader_features = [];
  writer_features = [];
  properties = [];
  last_commit_timestamp_ms = pos 0;
}
