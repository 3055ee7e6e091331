-- ===== src/Storage/Attach/Cases.antt =====
-- Which calls an attach makes (`InternalAttach` of src/storage/uc_table_set.cpp).
use unity_catalog.Base.{◌≡◌, true, false, ◌⊎◌}
use unity_catalog.Result.{Result, ok}
use unity_catalog.Api.Data.{Table}
use unity_catalog.Storage.Attach.{
  AttachEnvironment, Parent, TableState, attach_database, internal_attach,
}
use unity_catalog.Storage.Attach.Fresh.{is_read, Fresh}
use unity_catalog.Storage.Attach.Reattach.{reattach}

module _ (env : AttachEnvironment) (parent : Parent) (t : Table) where
  abbrev State : Type 0
  State = TableState env parent t

  abbrev attach : State → Result (Unit {0}) × State
  attach = internal_attach env parent t

  -- What is attached is used again, without a call.
  abbrev pub Kept : State → Type 0
  Kept s =
      (s.attached ≡ true)
      × ((s.is_dirty ≡ false) ⊎ (is_read env parent t s ≡ true))
      × (attach s ≡ (ok tt, s))

  -- Nothing was attached, and the table is attached.
  abbrev pub Opened : State → Type 0
  Opened s =
      (s.attached ≡ false) × (s.is_dirty ≡ false) × (attach s ≡ attach_database env parent t s)

  -- What is attached is detached, and the table is attached anew.
  abbrev pub Renewed : State → Type 0
  Renewed s =
      (s.is_dirty ≡ true) × (is_read env parent t s ≡ false) × (attach s ≡ reattach env parent t s)
