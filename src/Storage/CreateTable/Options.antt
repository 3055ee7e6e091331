-- ===== src/Storage/CreateTable/Options.antt =====
-- The options of the statement that creates a managed table (`UCTableSet::CreateTable` of
-- src/storage/uc_table_set.cpp): what the server suggests, then what it requires.
pub mod Priority
use Prim.Native.String.{◌++◌ as ◌<>◌}
use unity_catalog.Base.{
  String, List, [], ◌∷◌, Bool, true, false, str_eq, ◌||◌, not, if◌then◌else◌, Text, lit,
  starts_with, Option, none, some,
}
use unity_catalog.Api.Data.{StagingTable}
use unity_catalog.Storage.CreateTable.Environment.{Options, OptionValue, constant}

pub is_member : String → List String → Bool
is_member key [] = false
is_member key (k ∷ ks) = str_eq k key || is_member key ks

-- The set `CREATABLE`.
abbrev creatable : List String
creatable =
    "delta.appendOnly" ∷ "delta.checkpointInterval" ∷ "delta.checkpointPolicy"
    ∷ "delta.checkpoint.writeStatsAsJson" ∷ "delta.checkpoint.writeStatsAsStruct"
    ∷ "delta.columnMapping.mode" ∷ "delta.dataSkippingNumIndexedCols"
    ∷ "delta.dataSkippingStatsColumns" ∷ "delta.deletedFileRetentionDuration"
    ∷ "delta.enableChangeDataFeed" ∷ "delta.enableDeletionVectors" ∷ "delta.enableExpiredLogCleanup"
    ∷ "delta.enableIcebergCompatV3" ∷ "delta.enableInCommitTimestamps" ∷ "delta.enableRowTracking"
    ∷ "delta.enableTypeWidening" ∷ "delta.logRetentionDuration" ∷ "delta.parquet.format.version"
    ∷ "delta.setTransactionRetentionDuration" ∷ []

pub creatable_delta_property : String → Bool
unfolding is_member
creatable_delta_property key =
    if not (starts_with (lit key) (lit "delta.")) then true else is_member key creatable

-- `options[key] = value` and `options.find(key)`; `lower` compares the keys without their case.
module _ (lower : String → String) where
  pub set_option : String → OptionValue → Options → Options
  set_option key value [] = (key, value) ∷ []
  set_option key value ((k, v) ∷ rest) =
      if str_eq (lower k) (lower key) then (k, value) ∷ rest else (k, v) ∷ set_option key value rest

  pub find_option : String → Options → Option OptionValue
  find_option key [] = none
  find_option key ((k, v) ∷ rest) =
      if str_eq (lower k) (lower key) then some v else find_option key rest

  pub set_suggested : List (String × String) → Options → Options
  set_suggested [] options = options
  set_suggested ((key, value) ∷ rest) options = set_suggested rest (
      if creatable_delta_property key
      then set_option key (constant (lit value)) options
      else options)

  pub set_required : List (String × String) → Options → Options
  set_required [] options = options
  set_required ((key, value) ∷ rest) options =
      set_required rest (set_option key (constant (lit value)) options)

  pub set_features : List String → Options → Options
  set_features [] options = options
  set_features (feature ∷ rest) options =
      set_features rest
        (set_option ("delta.feature." <> feature) (constant (lit "supported")) options)

  pub managed_options : StagingTable → Options → Options
  unfolding set_suggested set_required set_features
  managed_options staging options = set_features staging.writer_features (
      set_features staging.reader_features (
        set_required staging.required_properties
          (set_suggested staging.suggested_properties options)))
