-- ===== src/Storage/Attach/Reattach.antt =====
-- What a commit makes of the next attach (src/functions/uc_delta_ccv2_commit.cpp, `InternalAttach` of
-- src/storage/uc_table_set.cpp).
use unity_catalog.Base.{◌≡◌, refl, Bool, true, false, if◌then◌else◌}
use unity_catalog.Result.{Result, ok, err}
use unity_catalog.Result.Exec.{Exec, continue, ◌>>◌}
use unity_catalog.Api.Data.{Table}
use unity_catalog.Storage.Attach.{
  AttachEnvironment, Parent, TableState, on_world, set_dirty, set_attached, internal_detach,
  attach_database, attach_unless, internal_attach, attached_catalog_name,
}
use unity_catalog.Storage.Attach.Steps.{Leaves, >>=-Leaves}
use unity_catalog.Storage.Attach.Fresh.{is_read, detaches_dirty}

module _ (env : AttachEnvironment) (parent : Parent) (t : Table) where
  abbrev State : Type 0
  State = TableState env parent t

  abbrev IsDetached : State → Type 0
  IsDetached s = s.attached ≡ false

  set_attached-IsDetached : Leaves IsDetached (set_attached env parent t false)
  unfolding set_attached
  set_attached-IsDetached = record { left = λ s h. refl }

  -- The branches of `internal_detach`.
  IsDetached-branch :
      (s : State) (c : Bool) (m : Exec State (Unit {0}))
      → s.attached ≡ c
      → Leaves IsDetached m
      → (if c then m s else (ok tt, s)).0 ≡ ok tt
      → IsDetached (if c then m s else (ok tt, s)).1
  IsDetached-branch s true m e k h = k.left s h
  IsDetached-branch s false m e k h = e

  internal_detach-Leaves : Leaves IsDetached (internal_detach env parent t)
  unfolding internal_detach
  internal_detach-Leaves = record {
    left = λ s h.
        IsDetached-branch s s.attached
          (on_world env parent t (env.detach (attached_catalog_name env parent t))
            >> set_attached env parent t false)
          refl
          (>>=-Leaves IsDetached
            (on_world env parent t (env.detach (attached_catalog_name env parent t))) _
            λ u. set_attached-IsDetached)
          h;
  }

  cleaned-IsDetached :
      (r : Result (Unit {0}) × State)
      → (r.0 ≡ ok tt → IsDetached r.1)
      → (continue r.0 (λ u. set_dirty env parent t false) r.1).0 ≡ ok tt
      → IsDetached (continue r.0 (λ u. set_dirty env parent t false) r.1).1
  unfolding set_dirty
  cleaned-IsDetached (ok u, s) d h = d refl
  cleaned-IsDetached (err e, s) d h = cc

  pub if_false :
      (s : State) (c : Bool) (m : Exec State (Unit {0}))
      → c ≡ false
      → (if c then (ok tt, s) else m s) ≡ m s
  if_false s true m h = cc
  if_false s false m h = refl

  attaches_anew :
      (r : Result (Unit {0}) × State)
      → (r.0 ≡ ok tt → IsDetached r.1)
      → continue r.0 (λ u. attach_unless env parent t) r.1
        ≡ continue r.0 (λ u. attach_database env parent t) r.1
  unfolding attach_unless
  attaches_anew (ok u, s) d = if_false s s.attached (attach_database env parent t) (d refl)
  attaches_anew (err e, s) d = refl

  -- The attach of a table that is dirty and that the transaction has not read.
  abbrev pub reattach : Exec State (Unit {0})
  reattach =
      internal_detach env parent t >> set_dirty env parent t false >> attach_database env parent t

  pub reattaches :
      (s : State)
      → s.is_dirty ≡ true
      → is_read env parent t s ≡ false
      → internal_attach env parent t s ≡ reattach s
  unfolding internal_attach
  reattaches s dirty e = rw (detaches_dirty env parent t s dirty e) (
      attaches_anew ((internal_detach env parent t >> set_dirty env parent t false) s)
        (cleaned-IsDetached (internal_detach env parent t s) (internal_detach-Leaves.left s)))

  -- What a commit leaves of the state that it found.
  abbrev pub Marked : State → State → Type 0
  Marked s s' =
      (s'.is_dirty ≡ true)
      × (s'.attached ≡ s.attached)
      × (s'.backfilled_version ≡ s.backfilled_version)
