-- ===== src/Storage/Table.antt =====
-- `TableInformation` of src/storage/uc_table_set.cpp, by what the catalog reports of a table: its
-- features, whether a planned scan reads it, and the refusal of interval columns.
pub mod Interval
use unity_catalog.Base.{
  ℕ, zero, suc, ◌+◌, Option, none, some, List, [], ◌∷◌, Bool, true, false, not, ◌&&◌, ◌||◌,
  if◌then◌else◌, String, str_eq, Text, lit, starts_with, drop, length,
}
use unity_catalog.Result.{Result, ok, err, not_implemented}
use unity_catalog.Api.Data.{Column, Table}

-- `properties.find(key)`
unfoldable pub find_property : String → List (String × String) → Option String
find_property key [] = none
find_property key ((k, v) ∷ rest) = if str_eq k key then some v else find_property key rest

-- `HasDeltaFeature`, by the whole key.
unfoldable pub has_delta_feature : String → Table → Bool
unfolding find_property
has_delta_feature key t = elim (find_property key t.properties) [
  | none ↦ false
  | some v ↦ str_eq v "supported"
]

unfoldable pub is_catalog_managed : Table → Bool
unfolding has_delta_feature
is_catalog_managed t =
    has_delta_feature "delta.feature.catalogOwned-preview" t
    || has_delta_feature "delta.feature.catalogManaged" t

pub has_partition_column : List Column → Bool
has_partition_column [] = false
has_partition_column (c ∷ cs) = c.is_partition_column || has_partition_column cs

-- `ScanPlanCanRead`
unfoldable pub scan_plan_can_read : Table → Bool
unfolding find_property has_partition_column
scan_plan_can_read t =
    if not (str_eq t.data_source_format "DELTA")
    then true
    else if has_partition_column t.columns
    then false
    else elim (find_property "delta.columnMapping.mode" t.properties) [
      | none ↦ true
      | some mode ↦ str_eq mode "none"
    ]

abbrev pub interval : Text
interval = lit "interval "

abbrev pub units : List Text
units = lit "year" ∷ lit "month" ∷ lit "day" ∷ lit "hour" ∷ lit "minute" ∷ lit "second" ∷ []

-- `text.find("interval ", pos)` on what stands from `pos` on, as what stands where it was found.
pub find_interval : Text → Option Text
find_interval [] = none
find_interval (c ∷ s) = if starts_with (c ∷ s) interval then some (c ∷ s) else find_interval s

pub starts_with_unit : List Text → Text → Bool
starts_with_unit [] rest = false
starts_with_unit (unit ∷ more) rest = starts_with rest unit || starts_with_unit more rest

-- The loop of `TypeTextHasInterval`, with fuel.
pub interval_loop : ℕ → Text → Bool
unfolding find_interval starts_with_unit
interval_loop zero text = false
interval_loop (suc fuel) text = elim (find_interval text) [
  | none ↦ false
  | some found ↦ starts_with_unit units (drop 9 found) || interval_loop fuel (drop 1 found)
]

-- `TypeTextHasInterval`, with `StringUtil::Lower`.
pub type_text_has_interval : (Text → Text) → Text → Bool
unfolding interval_loop
type_text_has_interval lower type_text =
    let text = lower type_text in interval_loop (length text + 1) text

unfoldable pub throw_if_interval_columns : (Text → Text) → List Column → Result (Unit {0})
throw_if_interval_columns lower [] = ok tt
throw_if_interval_columns lower (c ∷ cs) =
    if type_text_has_interval lower c.type_text
    then err not_implemented
    else throw_if_interval_columns lower cs
