-- ===== src/DeleteFilter/Build/Union.antt =====
-- `BuildUCDeleteFilter` of src/uc_multi_file_list.cpp deletes what the delete files list.
use unity_catalog.Base.{
  ℕ, ◌≡◌, refl, ◌∙◌, String, Option, none, some, List, [], ◌∷◌, ◌++◌, map, Bool, false, ◌||◌,
  str_eq, if◌then◌else◌, ℤ, pos, is_neg, to_nat, arith, Bool-cases, inl, inr,
}
use unity_catalog.Result.{Exception, Result, ok, err, io, not_implemented}
use unity_catalog.Puffin.Roaring.{Roaring}
use unity_catalog.Puffin.Blob.{Checked, ◌>>=◌, from_blob, to_set}
use unity_catalog.Puffin.Blob.Safe.{IsSafe, from_blob-IsSafe}
use unity_catalog.ScanPlan.{DeleteFile}
use unity_catalog.DeleteFilter.{PositionDeleteFilter, contains}
use unity_catalog.DeleteFilter.Build.{
  DataChunk, Files, consume_chunks, insert_positions, has_equality_deletes,
  scan_positional_delete_file, scan_deletion_vector_file, scan_delete_file, scan_delete_files,
  filter_of, build_delete_filter,
}
use unity_catalog.DeleteFilter.Build.Rows.{
  matching, all_rows, all_wide, all_small, Adds, adds, fails, consume-Adds, positions-Adds,
}

module _ (roaring : Roaring) (files : Files) where
  -- What a parquet file of position deletes lists for a data file, if it can be read.
  pub parquet_positions : String → Result (List DataChunk) → Option (List ℤ)
  parquet_positions path (err e) = none
  parquet_positions path (ok chunks) =
      if all_wide chunks then some (matching path (all_rows chunks)) else none

  -- What the bytes of a deletion vector list, if they can be decoded.
  pub vector_positions : Result (List ℕ) → Option (List ℤ)
  vector_positions (err e) = none
  vector_positions (ok bytes) = elim (from_blob roaring bytes) [
    | none ↦ none
    | some (err e) ↦ none
    | some (ok blob) ↦
        if all_small (to_set roaring blob) then some (map pos (to_set roaring blob)) else none
  ]

  -- The positions of a data file that a delete file lists.
  pub listed_by : String → DeleteFile → Option (List ℤ)
  listed_by path d =
      if is_neg d.content_offset
      then (if str_eq d.file_format "parquet"
          then parquet_positions path (files.parquet d.file_path)
          else none)
      else if is_neg d.content_size_in_bytes
      then none
      else vector_positions
          (files.read d.file_path (to_nat d.content_offset) (to_nat d.content_size_in_bytes))

  parquet-Adds :
      (path : String) (r : Result (List DataChunk)) (out : List ℤ)
      → Adds out (parquet_positions path r) (some r >>= λ chunks. consume_chunks path chunks out)
  unfolding parquet_positions ◌>>=◌
  parquet-Adds path (err e) out = fails e
  parquet-Adds path (ok chunks) out = consume-Adds path chunks out

  vector-Adds :
      (r : Result (List ℕ)) (out : List ℤ)
      → Adds out (vector_positions r) (
          some r >>= λ bytes.
          from_blob roaring bytes >>= λ blob. insert_positions (to_set roaring blob) out)
  unfolding vector_positions ◌>>=◌
  vector-Adds (err e) out = fails e
  vector-Adds (ok bytes) out =
      decoded (from_blob roaring bytes) refl (from_blob-IsSafe roaring bytes)
    where
      decoded :
          (m : Checked (List (ℕ × roaring.Bitmap)))
          → from_blob roaring bytes ≡ m
          → IsSafe m
          → Adds out
              (vector_positions (ok bytes))
              (from_blob roaring bytes >>= λ blob. insert_positions (to_set roaring blob) out)
      decoded none h s = elim s [ ]
      decoded (some (err e)) h s = rw (h, vector_positions) (fails e)
      decoded (some (ok blob)) h s =
          rw (h, vector_positions) (positions-Adds (to_set roaring blob) out)

  scan-Adds :
      (path : String) (d : DeleteFile) (out : List ℤ)
      → Adds out (listed_by path d) (scan_delete_file roaring files d path out)
  unfolding listed_by scan_delete_file scan_positional_delete_file scan_deletion_vector_file
  scan-Adds path d out = elim (Bool-cases (is_neg d.content_offset)) [
    | inl positional ↦
        rw (positional, listed_by, scan_delete_file)
          (elim (Bool-cases (str_eq d.file_format "parquet")) [
            | inl h ↦ rw h (parquet-Adds path (files.parquet d.file_path) out)
            | inr h ↦ rw h (fails not_implemented)
          ])
    | inr vector ↦
        rw (vector, listed_by, scan_delete_file)
          (elim (Bool-cases (is_neg d.content_size_in_bytes)) [
            | inl h ↦ rw h (fails io)
            | inr h ↦ rw h (
                vector-Adds
                  (files.read d.file_path (to_nat d.content_offset)
                    (to_nat d.content_size_in_bytes))
                  out)
          ])
  ]

  -- The positions that some delete files list, if each can be read.
  pub listed_by_all : String → List DeleteFile → Option (List ℤ)
  listed_by_all path [] = some []
  listed_by_all path (d ∷ ds) = elim (listed_by path d) [
    | none ↦ none
    | some ps ↦ elim (listed_by_all path ds) [ none ↦ none | some qs ↦ some (ps ++ qs) ]
  ]

  contains-append :
      (ps qs : List ℤ) (x : ℤ) → contains (ps ++ qs) x ≡ (contains ps x || contains qs x)
  unfolding contains
  contains-append [] qs x = refl
  contains-append (p ∷ ps) qs x = ground (arith, contains-append ps qs x)

  join :
      {out : List ℤ} {l : Option (List ℤ)} {m : Checked (List ℤ)} (path : String)
      (ds : List DeleteFile)
      → Adds out l m
      → ((o : List ℤ) → Adds o (listed_by_all path ds) (scan_delete_files roaring files ds path o))
      → Adds out
          (elim l [
            | none ↦ none
            | some ps ↦ elim (listed_by_all path ds) [ none ↦ none | some qs ↦ some (ps ++ qs) ]
          ])
          (m >>= λ o. scan_delete_files roaring files ds path o)
  unfolding ◌>>=◌
  join {out = out} path ds (fails e) k = fails e
  join {out = out} path ds (adds ps o h) k = both (k o)
    where
      both :
          {l : Option (List ℤ)} {m : Checked (List ℤ)}
          → Adds o l m
          → Adds out (elim l [ none ↦ none | some qs ↦ some (ps ++ qs) ]) m
      both (fails e) = fails e
      both (adds qs o' g) = adds _ o' λ x. ground (arith, g x, h x, contains-append ps qs x)

  scan_files-Adds :
      (path : String) (ds : List DeleteFile) (out : List ℤ)
      → Adds out (listed_by_all path ds) (scan_delete_files roaring files ds path out)
  unfolding listed_by_all scan_delete_files contains
  scan_files-Adds path [] out = adds [] out (λ x. refl)
  scan_files-Adds path (d ∷ ds) out = join path ds (scan-Adds path d out) (scan_files-Adds path ds)

  -- Whether a filter, or none, drops a position.
  pub drops : Option PositionDeleteFilter → ℤ → Bool
  drops none x = false
  drops (some f) x = contains f.positions x

  -- A filter that drops what is listed; an exception where something cannot be listed.
  pub data Builds : Option (List ℤ) → Checked (Option PositionDeleteFilter) → Type 0 where
    builds :
        (listed : List ℤ) (f : Option PositionDeleteFilter)
        → ((x : ℤ) → drops f x ≡ contains listed x)
        → Builds (some listed) (some (ok f))
    refuses : (e : Exception) → Builds none (some (err e))

  drops-filter_of : (out : List ℤ) (x : ℤ) → drops (filter_of roaring files out) x ≡ contains out x
  unfolding drops filter_of contains
  drops-filter_of [] x = refl
  drops-filter_of (p ∷ ps) x = refl

  finish :
      {l : Option (List ℤ)} {m : Checked (List ℤ)}
      → Adds [] l m
      → Builds l (m >>= λ out. some (ok (filter_of roaring files out)))
  unfolding ◌>>=◌ contains
  finish (fails e) = refuses e
  finish (adds listed out h) = builds listed _ λ x. drops-filter_of out x ∙ ground (arith, h x)

  abbrev pub expected : String → List DeleteFile → Option (List ℤ)
  expected path ds = if has_equality_deletes ds then none else listed_by_all path ds

  -- The filter of a data file drops a position exactly if one of its delete files lists it for that
  -- data file. There is no filter, and an exception, exactly where a delete file is an equality
  -- delete or cannot be read or decoded; and no byte outside a deletion vector's buffer is read.
  pub build_delete_filter-Builds :
      (path : String) (ds : List DeleteFile)
      → Builds (expected path ds) (build_delete_filter roaring files path ds)
  unfolding build_delete_filter has_equality_deletes listed_by_all drops contains
  build_delete_filter-Builds path [] = builds [] none (λ x. refl)
  build_delete_filter-Builds path (d ∷ ds) = elim (Bool-cases (has_equality_deletes (d ∷ ds))) [
    | inl h ↦ rw (h, build_delete_filter) (refuses not_implemented)
    | inr h ↦ rw (h, build_delete_filter) (finish (scan_files-Adds path (d ∷ ds) []))
  ]
