-- ===== src/Storage/Backfill.antt =====
-- `CopyStagedCommitToDeltaLog` and `TableInformation::BackfillCommits` of
-- src/storage/uc_table_set.cpp: the staged commits of a table are copied into its Delta log.
pub mod Watermark
use unity_catalog.Base.{
  ℕ, Option, none, some, List, [], ◌∷◌, Bool, true, false, leb, ltb, if◌then◌else◌, String, Bytes,
}
use unity_catalog.Result.{Result, ok, err}
use unity_catalog.Api.Data.{Commit}

-- What the code calls of DuckDB's file system, on a world `W`.
pub record LogFiles : Type 1 where
  pub W : Type 0
  -- `OpenFile` of a staged commit: what its successive `Read`s give, up to the first that is empty
  pub open_source : Commit → W → Result (List (Result Bytes)) × W
  -- `OpenFile` of the version's log entry with exclusive creation: false where it exists
  pub create_target : ℕ → W → Result Bool × W
  pub write : Bytes → W → Result (Unit {0}) × W
  pub close : W → Result (Unit {0}) × W

-- `std::sort` by version.
unfoldable pub insert : Commit → List Commit → List Commit
insert c [] = c ∷ []
insert c (d ∷ ds) =
    let rest = insert c ds in if leb c.version d.version then c ∷ d ∷ ds else d ∷ rest

unfoldable pub sort : List Commit → List Commit
unfolding insert
sort [] = []
sort (c ∷ cs) = insert c (sort cs)

-- `backfilled_version.IsValid() && version <= backfilled_version.GetIndex()`
abbrev pub is_backfilled : ℕ → Option ℕ → Bool
is_backfilled version none = false
is_backfilled version (some w) = leb version w

module _ (files : LogFiles) where
  open files use {W, open_source, create_target, write, close}

  -- The write of one piece, then the pieces behind it.
  unfoldable pub written : (W → Result Bool × W) → Result (Unit {0}) × W → Result Bool × W
  written rest (err e, w) = (err e, w)
  written rest (ok u, w) = rest w

  unfoldable pub closed : Result (Unit {0}) × W → Result Bool × W
  closed (err e, w) = (err e, w)
  closed (ok u, w) = (ok true, w)

  unfoldable pub copy_pieces : List (Result Bytes) → W → Result Bool × W
  unfolding written closed
  copy_pieces [] w = closed (close w)
  copy_pieces (err e ∷ pieces) w = (err e, w)
  copy_pieces (ok bytes ∷ pieces) w = written (copy_pieces pieces) (write bytes w)

  unfoldable pub into_target : List (Result Bytes) → Result Bool × W → Result Bool × W
  unfolding copy_pieces
  into_target pieces (err e, w) = (err e, w)
  into_target pieces (ok true, w) = copy_pieces pieces w
  into_target pieces (ok false, w) = (ok false, w)

  unfoldable pub from_source : Commit → Result (List (Result Bytes)) × W → Result Bool × W
  unfolding into_target
  from_source c (err e, w) = (err e, w)
  from_source c (ok pieces, w) = into_target pieces (create_target c.version w)

  -- `CopyStagedCommitToDeltaLog`: false where the log has the version already.
  unfoldable pub copy_staged_commit : Commit → W → Result Bool × W
  unfolding from_source
  copy_staged_commit c w = from_source c (open_source c w)

  -- A round of the loop behind the copy: an exception ends the loop, and is not passed on.
  unfoldable pub after_copy :
      ℕ → Option ℕ → (Option ℕ → W → Option ℕ × W) → Result Bool × W → Option ℕ × W
  after_copy version backfilled_version rest (err e, w) = (backfilled_version, w)
  after_copy version backfilled_version rest (ok copied, w) = rest (some version) w

  unfoldable pub backfill_loop : List Commit → Option ℕ → W → Option ℕ × W
  backfill_loop [] backfilled_version w = (backfilled_version, w)
  backfill_loop (c ∷ cs) backfilled_version w = elim (is_backfilled c.version backfilled_version) [
    | true ↦ backfill_loop cs backfilled_version w
    | false ↦ after_copy c.version backfilled_version (backfill_loop cs) (copy_staged_commit c w)
  ]

  -- `BackfillCommits`: the new watermark.
  unfoldable pub backfill_commits : List Commit → Option ℕ → W → Option ℕ × W
  unfolding backfill_loop sort
  backfill_commits commits backfilled_version w = backfill_loop (sort commits) backfilled_version w
