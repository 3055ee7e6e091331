-- ===== src/Tests/Storage.antt =====
-- The theorems on the catalog's state at concrete inputs.
use unity_catalog.Base.{
  arith, lit, ℕ, String, ◌≡◌, refl, some, if◌then◌else◌, List, [], ◌∷◌, get_elem?, ◌+◌, true, false,
  leb, length, pos,
}
use unity_catalog.Result.{Result, ok, err, io, not_implemented}
use unity_catalog.Api.Data.{Schema, Column, Commit}
use unity_catalog.Storage.Transaction.{Transaction, start, commit, get_table_entry, set_table_entry}
use unity_catalog.Storage.Transaction.Stable.{
  here, then_step, commits, sets, set_table_entry-stable,
}
use unity_catalog.Storage.SchemaSet.{
  SchemaEntry, SchemaSetState, find, get_entry, entry_of, Loading,
}
use unity_catalog.Storage.SchemaSet.Load
use unity_catalog.Storage.Gate.{
  Gate, unknown, available, mark_scan_plan_unavailable, should_try_scan_plan,
}
use unity_catalog.Storage.Gate.Window.{tries, tries-window}
use unity_catalog.Storage.Table.{throw_if_interval_columns}
use unity_catalog.Storage.Table.Interval.{any_interval, throw_if_interval_columns-any}
use unity_catalog.Storage.Backfill.{LogFiles}

abbrev bound : Transaction ℕ
bound = (set_table_entry ℕ "s.t" 1 (start ℕ)).1

abbrev later : Transaction ℕ
later = commit ℕ (set_table_entry ℕ "s.u" 2 bound).1

set_table_entry-stable_example :
    (get_table_entry ℕ "s.t" later ≡ some (set_table_entry ℕ "s.t" 1 (start ℕ)).0)
    × ((set_table_entry ℕ "s.t" 3 later).0 ≡ (set_table_entry ℕ "s.t" 1 (start ℕ)).0)
set_table_entry-stable_example = set_table_entry-stable ℕ "s.t" 1 3 (start ℕ) later (
    then_step bound _ later (then_step bound bound _ (here bound) (sets "s.u" 2 bound)) (commits _))

abbrev main_schema : Schema
main_schema = record { schema_name = "main"; catalog_name = "c" }

abbrev one_schema : ℕ → Result (List Schema) × ℕ
one_schema n = (ok (main_schema ∷ []), n + 1)

abbrev unloaded : SchemaSetState
unloaded = record { schemas = []; is_loaded = false }

get_entry-loads_example :
    (m : List (String × SchemaEntry)) × (get_entry (λ s. s) ℕ one_schema "main" (unloaded, 0)
      ≡ (ok (find "main" m), (record { schemas = m; is_loaded = true }, 1)))
    × ((key : String) (e : SchemaEntry) → find key [] ≡ some e → find key m ≡ some e)
    × ((i : ℕ) (schema : Schema)
        → get_elem? (main_schema ∷ []) i ≡ some schema
        → (e : SchemaEntry) × (find schema.schema_name m ≡ some e))
get_entry-loads_example =
    Load.get_entry-loads (λ s. s) ℕ one_schema "main" (main_schema ∷ []) unloaded 0 1 refl refl
      (refl, tt)

abbrev main_loaded : Loading (λ s. s) ℕ one_schema
main_loaded = (record { schemas = ("main", entry_of main_schema) ∷ []; is_loaded = true }, 1)

loaded-Holds_example :
    Load.Holds
      (λ s. s)
      ℕ
      one_schema
      1
      "main"
      (entry_of main_schema)
      (get_entry (λ s. s) ℕ one_schema "other" main_loaded).1
unfolding find
loaded-Holds_example =
    Load.loaded-Holds (λ s. s) ℕ one_schema 1 "main" (entry_of main_schema) main_loaded _
      (Load.then_step main_loaded main_loaded _ (Load.here main_loaded)
        (Load.gets "other" main_loaded))
      (refl, refl, refl)

-- The second of two staged commits cannot be opened.
abbrev one_readable : LogFiles
one_readable = record {
  W = ℕ;
  open_source = λ c w. (if leb c.version 4 then ok (ok (1 ∷ 2 ∷ []) ∷ []) else err io, w);
  create_target = λ v w. (ok true, w);
  write = λ bytes w. (ok tt, w + length bytes);
  close = λ w. (ok tt, w);
}

abbrev commit_of : ℕ → String → Commit
commit_of version file_name = record {
  version = version;
  timestamp = pos 0;
  file_name = file_name;
  file_size = pos 10;
  file_modification_timestamp = pos 0;
}

abbrev staged : List Commit
staged = commit_of 5 "b" ∷ commit_of 4 "a" ∷ []

abbrev interval_columns : List Column
interval_columns =
    record {
      name = "gap";
      type_text = lit "struct<gap:interval day to second>";
      type_json = "";
      precision = 0;
      scale = 0;
      position = 0;
      is_partition_column = false;
    }
    ∷ []

throw_if_interval_columns-any_example :
    throw_if_interval_columns (λ s. s) interval_columns
    ≡ (if any_interval (λ s. s) interval_columns then err not_implemented else ok tt)
throw_if_interval_columns-any_example = throw_if_interval_columns-any (λ s. s) interval_columns

abbrev opted_in : Gate
opted_in = record {
  use_irc_scan_plan = true;
  scan_plan_state = available;
  scan_plan_unavailable_since = 0;
}

tries-window_example :
    ((tries (20 ∷ 800_000 ∷ []) (mark_scan_plan_unavailable 10 opted_in)).0 ≡ false)
    × (should_try_scan_plan 900_010
          (tries (20 ∷ 800_000 ∷ []) (mark_scan_plan_unavailable 10 opted_in)).1
        ≡ (true, record opted_in { scan_plan_state = unknown; scan_plan_unavailable_since = 10 }))
tries-window_example =
    tries-window opted_in 10 900_010 (20 ∷ 800_000 ∷ []) refl (omega arith, (omega arith, tt))
      (omega arith)
