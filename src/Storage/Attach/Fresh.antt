-- ===== src/Storage/Attach/Fresh.antt =====
-- What an attach leaves (`InternalAttach` of src/storage/uc_table_set.cpp).
use unity_catalog.Base.{
  ◌≡◌, refl, ◌∙◌, ◌⊎◌, inl, inr, Bool, true, false, Bool-cases, ◌&&◌, if◌then◌else◌,
}
use unity_catalog.Result.{Result, ok, err}
use unity_catalog.Result.Exec.{Exec, continue, ◌>>◌}
use unity_catalog.Api.Data.{Table}
use unity_catalog.Storage.Attach.{
  AttachEnvironment, Parent, TableState, on_world, set_dirty, set_attached, internal_detach,
  detach_dirty, attach_database, attach_unless, internal_attach, managed_options, attach_info,
  take_commits,
}
use unity_catalog.Storage.Attach.Steps.{Leaves, >>=-Leaves, Calls, attach_unless-Along}

module _ (env : AttachEnvironment) (parent : Parent) (t : Table) where
  abbrev State : Type 0
  State = TableState env parent t

  -- The transaction that runs has read the table.
  abbrev pub is_read : State → Bool
  is_read s = s.attached && env.has_transaction s.world

  abbrev IsAttached : State → Type 0
  IsAttached s = s.attached ≡ true

  set_attached-Leaves : Leaves IsAttached (set_attached env parent t true)
  unfolding set_attached
  set_attached-Leaves = record { left = λ s h. refl }

  attach_database-Leaves : Leaves IsAttached (attach_database env parent t)
  unfolding attach_database
  attach_database-Leaves = >>=-Leaves IsAttached (managed_options env parent t) _ λ managed.
      >>=-Leaves IsAttached (on_world env parent t (env.attach (attach_info env parent t managed)))
        _ λ u. set_attached-Leaves

  unless_attached :
      (s : State) (c : Bool) (m : Exec State (Unit {0}))
      → s.attached ≡ c
      → Leaves IsAttached m
      → (if c then (ok tt, s) else m s).0 ≡ ok tt
      → IsAttached (if c then (ok tt, s) else m s).1
  unless_attached s true m e k h = e
  unless_attached s false m e k h = k.left s h

  attach_unless-Leaves : Leaves IsAttached (attach_unless env parent t)
  unfolding attach_unless
  attach_unless-Leaves = record {
    left = λ s h.
        unless_attached s s.attached (attach_database env parent t) refl attach_database-Leaves h;
  }

  abbrev SameDirt : State → State → Type 0
  SameDirt s s' = s'.is_dirty ≡ s.is_dirty

  dirt-Calls : Calls env parent t SameDirt
  unfolding on_world take_commits set_attached
  dirt-Calls = record {
    order = record { same = λ s. refl; join = λ p q. q ∙ p };
    loads = λ name. record { step = λ s. refl };
    takes = λ commits. record { step = λ s. refl };
    attaches = λ info. record { step = λ s. refl };
    detaches = λ name. record { step = λ s. refl };
    sets = λ b. record { step = λ s. refl };
  }

  abbrev IsClean : State → Type 0
  IsClean s = s.is_dirty ≡ false

  -- What stands behind the detach of a dirty table, with the attach after it.
  attached-IsClean :
      (r : Result (Unit {0}) × State)
      → IsClean r.1
      → IsClean (continue r.0 (λ u. attach_unless env parent t) r.1).1
  attached-IsClean (ok u, s) c = (attach_unless-Along env parent t dirt-Calls).step s ∙ c
  attached-IsClean (err e, s) c = c

  set_dirty-Leaves : Leaves IsClean (set_dirty env parent t false)
  unfolding set_dirty
  set_dirty-Leaves = record { left = λ s h. refl }

  ok-IsClean :
      (r : Result (Unit {0}) × State)
      → (r.0 ≡ ok tt → IsClean r.1)
      → (continue r.0 (λ u. attach_unless env parent t) r.1).0 ≡ ok tt
      → IsClean (continue r.0 (λ u. attach_unless env parent t) r.1).1
  ok-IsClean (ok u, s) c h = attached-IsClean (ok u, s) (c refl)
  ok-IsClean (err e, s) c h = cc

  pub is_read-attached : (s : State) → is_read s ≡ true → IsAttached s
  is_read-attached s h = elim (Bool-cases s.attached) [
    | inl e ↦ e
    | inr e ↦ let bad : false ≡ true = rw e at h in cc
  ]

  pub keeps_clean : (s : State) → IsClean s → detach_dirty env parent t s ≡ (ok tt, s)
  unfolding detach_dirty
  keeps_clean s e = rw e refl

  keeps_read : (s : State) → is_read s ≡ true → detach_dirty env parent t s ≡ (ok tt, s)
  keeps_read s e = elim (Bool-cases s.is_dirty) [
    | inl dirty ↦ unfold detach_dirty in rw (dirty, e) refl
    | inr clean ↦ keeps_clean s clean
  ]

  pub detaches_dirty :
      (s : State)
      → s.is_dirty ≡ true
      → is_read s ≡ false
      → detach_dirty env parent t s
        ≡ (internal_detach env parent t >> set_dirty env parent t false) s
  unfolding detach_dirty
  detaches_dirty s dirty e = rw (dirty, e) refl

  pub read_again : (s : State) → is_read s ≡ true → internal_attach env parent t s ≡ (ok tt, s)
  unfolding internal_attach attach_unless
  read_again s e = rw (keeps_read s e, is_read-attached s e) refl

  IsClean-again : (s : State) → IsClean s → IsClean (internal_attach env parent t s).1
  unfolding internal_attach
  IsClean-again s clean = rw (keeps_clean s clean) (attached-IsClean (ok tt, s) clean)

  behind_detach : Leaves IsClean (internal_detach env parent t >> set_dirty env parent t false)
  behind_detach = >>=-Leaves IsClean (internal_detach env parent t) _ λ u. set_dirty-Leaves

  dirty_again :
      (s : State)
      → s.is_dirty ≡ true
      → is_read s ≡ false
      → (internal_attach env parent t s).0 ≡ ok tt
      → IsClean (internal_attach env parent t s).1
  unfolding internal_attach
  dirty_again s dirty e h =
      let eq = detaches_dirty s dirty e in
      rw eq (
        ok-IsClean ((internal_detach env parent t >> set_dirty env parent t false) s)
          (behind_detach.left s) (rw eq at h))

  -- A clean table, or one that is read again.
  abbrev pub Fresh : State → Type 0
  Fresh s =
      ((internal_attach env parent t s).1.is_dirty ≡ false)
      ⊎ ((is_read s ≡ true) × (internal_attach env parent t s ≡ (ok tt, s)))

  fresh : (s : State) → (internal_attach env parent t s).0 ≡ ok tt → Fresh s
  fresh s h = elim (Bool-cases s.is_dirty) [
    | inr clean ↦ inl (IsClean-again s clean)
    | inl dirty ↦ elim (Bool-cases (is_read s)) [
      | inl e ↦ inr (e, read_again s e)
      | inr e ↦ inl (dirty_again s dirty e h)
    ]
  ]

  attached :
      (s : State)
      → (internal_attach env parent t s).0 ≡ ok tt
      → IsAttached (internal_attach env parent t s).1
  unfolding internal_attach
  attached s h =
      (>>=-Leaves IsAttached (detach_dirty env parent t) _ λ u. attach_unless-Leaves).left s h

  -- What an attach that returns leaves.
  pub internal_attach-Fresh :
      (s : State)
      → (internal_attach env parent t s).0 ≡ ok tt
      → ((internal_attach env parent t s).1.attached ≡ true) × Fresh s
  internal_attach-Fresh s h = (attached s h, fresh s h)
