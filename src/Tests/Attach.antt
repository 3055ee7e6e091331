-- ===== src/Tests/Attach.antt =====
-- The theorems on attached tables at concrete inputs.
use unity_catalog.Base.{ℕ, ◌+◌, ◌≡◌, refl, some, [], ◌∷◌, Bool, true, false, pos}
use unity_catalog.Result.{ok}
use unity_catalog.Api.Data.{Table, CommitsResult, no_credentials}
use unity_catalog.Api.Calls.Update.{NewCommit}
use unity_catalog.Storage.Backfill.{backfill_commits, after_copy, copy_staged_commit}
use unity_catalog.Storage.Backfill.Watermark.{Rises}
use unity_catalog.Storage.Table.{is_catalog_managed}
use unity_catalog.Storage.Attach.{AttachEnvironment, Parent, TableState, internal_attach}
use unity_catalog.Storage.Attach.Fresh.{Fresh}
use unity_catalog.Storage.Attach.ReadOnly.{internal_attach-read_only}
use unity_catalog.Storage.Attach.Watermark.{
  attaches, checkpoints, requests, marks_dirty, keeps_etag, elsewhere, history, history-Rises,
}

abbrev listed : CommitsResult
listed = record {
  commits =
      record {
        version = 4;
        timestamp = pos 0;
        file_name = "a.json";
        file_size = pos 10;
        file_modification_timestamp = pos 0;
      }
      ∷ [];
  table_uuid = "id";
  location = "s3://b/t";
  ratified_version = 4;
  etag = "e1";
}

-- The world counts what is written to the table's log.
abbrev pub counted : AttachEnvironment
counted = record {
  files = record {
    W = ℕ;
    open_source = λ c w. (ok (ok (1 ∷ 2 ∷ []) ∷ []), w);
    create_target = λ v w. (ok true, w + 1);
    write = λ bytes w. (ok tt, w + 1);
    close = λ w. (ok tt, w);
  };
  load_table = λ name w. (ok listed, w);
  update_table = λ name id etag commit watermark w. (ok "e2", w);
  get_table_credentials = λ name id managed write w. (ok no_credentials, w);
  create_secret = λ secret w. (ok tt, w);
  attach = λ info w. (ok tt, w);
  detach = λ name w. (ok tt, w);
  checkpoint = λ force w. (ok tt, w);
  has_transaction = λ w. false;
}

abbrev pub orders : Table
orders = record {
  table_id = "id";
  name = "orders";
  catalog_name = "c";
  schema_name = "s";
  table_type = "MANAGED";
  data_source_format = "DELTA";
  storage_location = "s3://b/t";
  columns = [];
  properties = ("delta.feature.catalogManaged", "supported") ∷ [];
}

abbrev pub sales : Bool → Parent
sales read_only = record { name = "sales"; schema = "s"; aws_region = ""; read_only = read_only }

abbrev appended : NewCommit
appended = record {
  version = 5;
  timestamp = 0;
  file_name = "b.json";
  file_size = 10;
  file_modification_timestamp = 0;
}

abbrev pub attached_at : (read_only : Bool) → TableState counted (sales read_only) orders
attached_at read_only = record {
  world = 0;
  attached = true;
  is_dirty = true;
  etag = "e1";
  backfilled_version = some 3;
}

backfills :
    (internal_attach counted (sales false) orders (attached_at false)).1.backfilled_version ≡ some 4
unfolding internal_attach is_catalog_managed backfill_commits after_copy copy_staged_commit
backfills = refl

history-Rises_example :
    Rises counted.files
      (some 3)
      (history counted
        (sales false)
        orders
        (attaches
          ∷ requests appended
          ∷ checkpoints true
          ∷ elsewhere 7
          ∷ marks_dirty
          ∷ keeps_etag "e2"
          ∷ attaches
          ∷ [])
        (attached_at false)).backfilled_version
history-Rises_example =
    history-Rises counted (sales false) orders
      (attaches
        ∷ requests appended
        ∷ checkpoints true
        ∷ elsewhere 7
        ∷ marks_dirty
        ∷ keeps_etag "e2"
        ∷ attaches
        ∷ [])
      (attached_at false)

internal_attach-read_only_example :
    ((internal_attach counted (sales true) orders (attached_at true)).1.world ≡ 0)
    × ((internal_attach counted (sales true) orders (attached_at true)).1.backfilled_version
        ≡ some 3)
internal_attach-read_only_example =
    internal_attach-read_only counted (sales true) orders (λ w. w ≡ 0) refl (λ name w p. p)
      (λ info w p. p) (λ name w p. p) (attached_at true) refl
