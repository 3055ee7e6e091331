-- ===== src/DeleteFilter/Build.antt =====
-- `BuildUCDeleteFilter`, `ScanPositionalDeleteFile` and `ScanDeletionVectorFile` of
-- src/uc_multi_file_list.cpp, and `FinalizeBind`, which hangs the filter off a reader.
pub mod Rows
pub mod Union
use unity_catalog.Base.{
  ℕ, ◌^◌, String, Option, none, some, List, [], ◌∷◌, Bool, true, false, str_eq, not, is_empty,
  get_elem?, if◌then◌else◌, ltb, ℤ, pos, is_neg, to_nat, Bytes,
}
use unity_catalog.Result.{Result, ok, err, io, not_implemented, internal}
use unity_catalog.Puffin.Roaring.{Roaring}
use unity_catalog.Puffin.Blob.{Checked, ◌>>=◌, ◌>>◌, from_blob, to_set}
use unity_catalog.ScanPlan.{DeleteFile, DeleteFileType, position_deletes, equality_deletes}
use unity_catalog.FileList.{MultiFileList}
use unity_catalog.DeleteFilter.{PositionDeleteFilter}

-- A batch of a parquet scan, by the two columns that are read.
pub record DataChunk : Type 0 where
  pub column_count : ℕ
  pub rows : List (String × ℤ)

-- What the code calls of DuckDB's file system and of its parquet reader.
pub record Files : Type 0 where
  -- `OpenFile` and `Read` of some bytes from an offset
  pub read : String → ℕ → ℕ → Result Bytes
  -- the batches of `ScanParquetFile` that are not empty, or the scan's exception
  pub parquet : String → Result (List DataChunk)

-- `out.insert(…)` for the rows that name the data file; the newest stands first.
pub insert_rows : String → List (String × ℤ) → List ℤ → List ℤ
insert_rows data_file_path [] out = out
insert_rows data_file_path ((path, position) ∷ rows) out =
    insert_rows data_file_path rows (if str_eq path data_file_path then position ∷ out else out)

pub consume_chunks : String → List DataChunk → List ℤ → Checked (List ℤ)
consume_chunks data_file_path [] out = some (ok out)
consume_chunks data_file_path (chunk ∷ chunks) out = elim (ltb chunk.column_count 2) [
  | true ↦ some (err io)
  | false ↦ consume_chunks data_file_path chunks (insert_rows data_file_path chunk.rows out)
]

-- `out.insert(NumericCast<int64_t>(pos))` for each position.
pub insert_positions : List ℕ → List ℤ → Checked (List ℤ)
insert_positions [] out = some (ok out)
insert_positions (p ∷ ps) out = elim (ltb p (2 ^ 63)) [
  | true ↦ insert_positions ps (pos p ∷ out)
  | false ↦ some (err internal)
]

pub has_equality_deletes : List DeleteFile → Bool
has_equality_deletes [] = false
has_equality_deletes (d ∷ ds) = elim d.content [
  | equality_deletes ↦ true
  | position_deletes ↦ has_equality_deletes ds
]

module _ (roaring : Roaring) (files : Files) where
  pub scan_positional_delete_file : DeleteFile → String → List ℤ → Checked (List ℤ)
  scan_positional_delete_file delete_file data_file_path out =
      if str_eq delete_file.file_format "parquet"
      then (do
        chunks ← some (files.parquet delete_file.file_path)
        consume_chunks data_file_path chunks out)
      else some (err not_implemented)

  -- `content_offset` is not negative here. The set of positions is listed as `to_set` gives them.
  pub scan_deletion_vector_file : DeleteFile → List ℤ → Checked (List ℤ)
  scan_deletion_vector_file delete_file out =
      if is_neg delete_file.content_size_in_bytes then some (err io) else (do
        let size = to_nat delete_file.content_size_in_bytes
        buffer ← some (files.read delete_file.file_path (to_nat delete_file.content_offset) size)
        blob ← from_blob roaring buffer
        insert_positions (to_set roaring blob) out)

  -- One round of the loop over the delete files.
  pub scan_delete_file : DeleteFile → String → List ℤ → Checked (List ℤ)
  scan_delete_file d data_file_path out =
      if is_neg d.content_offset
      then scan_positional_delete_file d data_file_path out
      else scan_deletion_vector_file d out

  pub scan_delete_files : List DeleteFile → String → List ℤ → Checked (List ℤ)
  scan_delete_files [] data_file_path out = some (ok out)
  scan_delete_files (d ∷ ds) data_file_path out = do
    out' ← scan_delete_file d data_file_path out
    scan_delete_files ds data_file_path out'

  -- `nullptr` where no position is deleted.
  filter_of : List ℤ → Option PositionDeleteFilter
  filter_of [] = none
  filter_of (p ∷ ps) = some (record { positions = p ∷ ps })

  pub build_delete_filter : String → List DeleteFile → Checked (Option PositionDeleteFilter)
  unfolding filter_of
  build_delete_filter data_file_path deletes =
      if is_empty deletes
      then some (ok none)
      else if has_equality_deletes deletes
      then some (err not_implemented)
      else (do
        deleted_positions ← scan_delete_files deletes data_file_path []
        some (ok (filter_of deleted_positions)))

  -- `FinalizeBind` for the file at an index of the list, by `GetDeleteFilesForFile` and
  -- `GetDataFilePath`; `none` is an index out of the list.
  pub finalize_bind : MultiFileList → ℕ → Checked (Option PositionDeleteFilter)
  finalize_bind list file_idx = elim (get_elem? list.file_deletes file_idx) [
    | none ↦ none
    | some [] ↦ some (ok none)
    | some (d ∷ ds) ↦ elim (get_elem? list.expanded_files file_idx) [
      | none ↦ none
      | some file ↦ build_delete_filter file.path (d ∷ ds)
    ]
  ]
