-- ===== src/Storage/Attach/ReadOnly.antt =====
-- An attach of a read-only catalog (`InternalAttach` of src/storage/uc_table_set.cpp).
use unity_catalog.Base.{String, ◌≡◌, refl, ◌∙◌, true, false, not, ◌&&◌}
use unity_catalog.Result.Exec.{pure}
use unity_catalog.Api.Data.{Table, TableName}
use unity_catalog.Storage.Attach.{
  AttachEnvironment, Parent, TableState, TableAttachInfo, on_world, set_dirty, set_attached,
  internal_detach, detach_dirty, internal_attach, take_commits,
}
use unity_catalog.Storage.Attach.Steps.{
  Along, Calls, pure-Along, >>=-Along, choice-Along, internal_detach-Along, attach_unless-Along,
}

module _ (env : AttachEnvironment) (parent : Parent) (t : Table) (P : env.files.W → Type 0) where
  -- What the world keeps, with the watermark as it is.
  abbrev Spares : TableState env parent t → TableState env parent t → Type 0
  Spares s s' = (P s.world → P s'.world) × (s'.backfilled_version ≡ s.backfilled_version)

  module _ (read_only : parent.read_only ≡ true)
      (loads : (name : TableName) (w : env.files.W) → P w → P (env.load_table name w).1)
      (attaches : (info : TableAttachInfo) (w : env.files.W) → P w → P (env.attach info w).1)
      (detaches : (name : String) (w : env.files.W) → P w → P (env.detach name w).1) where
    Spares-Calls : Calls env parent t Spares
    unfolding on_world take_commits set_attached
    Spares-Calls = record {
      order = record { same = λ s. (λ p. p, refl); join = λ f g. (λ p. g.0 (f.0 p), g.1 ∙ f.1) };
      loads = λ name. record { step = λ s. (loads name s.world, refl) };
      takes = λ commits. record { step = λ s. rw read_only (λ p. p, refl) };
      attaches = λ info. record { step = λ s. (attaches info s.world, refl) };
      detaches = λ name. record { step = λ s. (detaches name s.world, refl) };
      sets = λ b. record { step = λ s. (λ p. p, refl) };
    }

    set_dirty-Spares : Along Spares (set_dirty env parent t false)
    unfolding set_dirty
    set_dirty-Spares = record { step = λ s. (λ p. p, refl) }

    internal_attach-step :
        (s : TableState env parent t) → Spares s (internal_attach env parent t s).1
    unfolding internal_attach detach_dirty
    internal_attach-step =
        (>>=-Along Spares-Calls.order (detach_dirty env parent t) _
          (choice-Along Spares-Calls.order
            (λ s. s.is_dirty && not (s.attached && env.has_transaction s.world)) _ (pure tt)
            (>>=-Along Spares-Calls.order (internal_detach env parent t) _
              (internal_detach-Along env parent t Spares-Calls) λ u. set_dirty-Spares)
            (pure-Along Spares-Calls.order tt))
          λ u. attach_unless-Along env parent t Spares-Calls).step

    -- An attach of a table in a read-only catalog leaves the watermark as it is; and what loading the
    -- table, attaching and detaching keep of the world stays, whatever the file operations of a
    -- backfill would do: none of them is called.
    pub internal_attach-read_only :
        (s : TableState env parent t)
        → P s.world
        → P (internal_attach env parent t s).1.world
          × ((internal_attach env parent t s).1.backfilled_version ≡ s.backfilled_version)
    internal_attach-read_only s p = ((internal_attach-step s).0 p, (internal_attach-step s).1)
