-- ===== src/Storage/Attach/Watermark.antt =====
-- The watermark of a table over attaches, detaches and commits (src/storage/uc_table_set.cpp,
-- src/functions/uc_delta_ccv2_commit.cpp).
use unity_catalog.Base.{
  ℕ, String, Option, none, some, List, [], ◌∷◌, Bool, true, false, not, ◌&&◌, starts_with, lit,
  if◌then◌else◌, arith,
}
use unity_catalog.Result.{Result}
use unity_catalog.Result.Exec.{pure, ◌>>◌}
use unity_catalog.Api.Data.{Table, CommitsResult}
use unity_catalog.Api.Calls.Update.{NewCommit}
use unity_catalog.Storage.Backfill.{LogFiles, backfill_commits}
use unity_catalog.Storage.Backfill.Watermark.{Rises, Rises-refl, backfill_commits-Accounted}
use unity_catalog.Storage.Attach.Steps.{
  Along, IsPreorder, Calls, pure-Along, >>=-Along, choice-Along, internal_detach-Along,
  attach_unless-Along,
}
use unity_catalog.Storage.Attach.{
  internal_checkpoint, AttachEnvironment, Parent, TableState, on_world, take_commits, set_attached,
  set_dirty, keep_etag, internal_detach, detach_dirty, attach_unless, internal_attach,
  refresh_credentials, ask_credentials, table_secret, request_commit,
}

Rises-trans :
    (files : LogFiles) (a b c : Option ℕ) → Rises files a b → Rises files b c → Rises files a c
Rises-trans files none b c p q = tt
Rises-trans files (some m) none c p q = elim p [ ]
Rises-trans files (some m) (some n) none p q = q
Rises-trans files (some m) (some n) (some o) p q = omega arith

module _ (env : AttachEnvironment) (parent : Parent) (t : Table) where
  abbrev State : Type 0
  State = TableState env parent t

  abbrev Up : State → State → Type 0
  Up s s' = Rises env.files s.backfilled_version s'.backfilled_version

  Up-IsPreorder : IsPreorder Up
  Up-IsPreorder = record {
    same = λ s. Rises-refl env.files s.backfilled_version;
    join = λ {a} {b} {c} p q.
        Rises-trans env.files a.backfilled_version b.backfilled_version c.backfilled_version p q;
  }

  on_world-Up :
      {A : Type 0} (op : env.files.W → Result A × env.files.W) → Along Up (on_world env parent t op)
  unfolding on_world
  on_world-Up op = record { step = λ s. Rises-refl env.files s.backfilled_version }

  set_attached-Up : (b : Bool) → Along Up (set_attached env parent t b)
  unfolding set_attached
  set_attached-Up b = record { step = λ s. Rises-refl env.files s.backfilled_version }

  set_dirty-Up : (b : Bool) → Along Up (set_dirty env parent t b)
  unfolding set_dirty
  set_dirty-Up b = record { step = λ s. Rises-refl env.files s.backfilled_version }

  keep_etag-Up : (etag : String) → Along Up (keep_etag env parent t etag)
  unfolding keep_etag
  keep_etag-Up etag = record { step = λ s. Rises-refl env.files s.backfilled_version }

  take_commits-Up : (commits : CommitsResult) → Along Up (take_commits env parent t commits)
  unfolding take_commits
  take_commits-Up commits = record { step = λ s. taken s parent.read_only }
    where
      taken :
          (s : State) (b : Bool)
          → Rises env.files s.backfilled_version
              (if b
                then (s.backfilled_version, s.world)
                else backfill_commits env.files commits.commits s.backfilled_version s.world).0
      taken s true = Rises-refl env.files s.backfilled_version
      taken s false =
          (backfill_commits-Accounted env.files commits.commits s.backfilled_version s.world).0

  attach-Calls : Calls env parent t Up
  attach-Calls = record {
    order = Up-IsPreorder;
    loads = λ name. on_world-Up (env.load_table name);
    takes = take_commits-Up;
    attaches = λ info. on_world-Up (env.attach info);
    detaches = λ name. on_world-Up (env.detach name);
    sets = set_attached-Up;
  }

  internal_attach-Up : Along Up (internal_attach env parent t)
  unfolding internal_attach detach_dirty attach_unless
  internal_attach-Up =
      >>=-Along Up-IsPreorder (detach_dirty env parent t) _
        (choice-Along Up-IsPreorder
          (λ s. s.is_dirty && not (s.attached && env.has_transaction s.world)) _ (pure tt)
          (>>=-Along Up-IsPreorder (internal_detach env parent t) _
            (internal_detach-Along env parent t attach-Calls) λ u. set_dirty-Up false)
          (pure-Along Up-IsPreorder tt))
        λ u. attach_unless-Along env parent t attach-Calls

  request_commit-Up : (c : NewCommit) → Along Up (request_commit env parent t c)
  unfolding request_commit on_world
  request_commit-Up c = record { step = λ s. Rises-refl env.files s.backfilled_version }

  refresh_credentials-Up : Along Up (refresh_credentials env parent t)
  unfolding refresh_credentials
  refresh_credentials-Up =
      choice-Along Up-IsPreorder (λ s. starts_with (lit t.storage_location) (lit "file://"))
        (pure tt) _ (pure-Along Up-IsPreorder tt)
        (>>=-Along Up-IsPreorder (on_world env parent t (ask_credentials env parent t)) _
          (on_world-Up (ask_credentials env parent t))
          λ credentials. on_world-Up (env.create_secret (table_secret env parent t credentials)))

  internal_checkpoint-Up : (force : Bool) → Along Up (internal_checkpoint env parent t force)
  unfolding internal_checkpoint
  internal_checkpoint-Up force =
      >>=-Along Up-IsPreorder (refresh_credentials env parent t >> internal_attach env parent t) _
        (>>=-Along Up-IsPreorder (refresh_credentials env parent t) _ refresh_credentials-Up
          λ u. internal_attach-Up)
        λ u. on_world-Up (env.checkpoint force)

  -- What happens to a table, in whichever order: an attach or a detach under the lock, a refresh of
  -- the credentials, a checkpoint; a commit in the parts between which another thread may run; and a
  -- change of the world by others.
  pub data Event : Type 0 where
    refreshes : Event
    attaches : Event
    detaches : Event
    checkpoints : Bool → Event
    requests : NewCommit → Event
    marks_dirty : Event
    keeps_etag : String → Event
    elsewhere : env.files.W → Event

  -- The state behind an event, whether its call returned or threw.
  pub happens : Event → State → State
  unfolding refresh_credentials internal_attach internal_detach internal_checkpoint request_commit
      set_dirty keep_etag
  happens refreshes s = (refresh_credentials env parent t s).1
  happens attaches s = (internal_attach env parent t s).1
  happens detaches s = (internal_detach env parent t s).1
  happens (checkpoints force) s = (internal_checkpoint env parent t force s).1
  happens (requests commit) s = (request_commit env parent t commit s).1
  happens marks_dirty s = (set_dirty env parent t true s).1
  happens (keeps_etag etag) s = (keep_etag env parent t etag s).1
  happens (elsewhere w) s = record s { world = w }

  pub history : List Event → State → State
  unfolding happens
  history [] s = s
  history (e ∷ es) s = history es (happens e s)

  happens-Up : (e : Event) (s : State) → Up s (happens e s)
  unfolding happens
  happens-Up refreshes s = refresh_credentials-Up.step s
  happens-Up attaches s = internal_attach-Up.step s
  happens-Up detaches s = (internal_detach-Along env parent t attach-Calls).step s
  happens-Up (checkpoints force) s = (internal_checkpoint-Up force).step s
  happens-Up (requests commit) s = (request_commit-Up commit).step s
  happens-Up marks_dirty s = (set_dirty-Up true).step s
  happens-Up (keeps_etag etag) s = (keep_etag-Up etag).step s
  happens-Up (elsewhere w) s = Rises-refl env.files s.backfilled_version

  -- The watermark of a table never falls, over any sequence of attaches, detaches, checkpoints, refreshes
  -- of the credentials and parts of commits, whatever fails in them and whatever others do to the world
  -- between them.
  pub history-Rises :
      (es : List Event) (s : State)
      → Rises env.files s.backfilled_version (history es s).backfilled_version
  unfolding history
  history-Rises [] s = Rises-refl env.files s.backfilled_version
  history-Rises (e ∷ es) s =
      Rises-trans env.files s.backfilled_version (happens e s).backfilled_version _ (happens-Up e s)
        (history-Rises es (happens e s))
