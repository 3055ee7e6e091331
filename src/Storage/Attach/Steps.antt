-- ===== src/Storage/Attach/Steps.antt =====
-- What holds between the states before and behind each call that `InternalAttach` makes
-- (src/storage/uc_table_set.cpp) holds before and behind the parts it is made of.
use unity_catalog.Base.{
  ◌≡◌, String, none, some, Bool, true, false, Bool-cases, inl, inr, if◌then◌else◌,
}
use unity_catalog.Result.{Result, ok, err}
use unity_catalog.Result.Exec.{Exec, pure, continue, ◌>>=◌}
use unity_catalog.Api.Data.{Table, TableName, CommitsResult}
use unity_catalog.Storage.Table.{is_catalog_managed}
use unity_catalog.Storage.Attach.{
  AttachEnvironment, Parent, TableState, TableAttachInfo, on_world, take_commits, managed_options,
  attach_database, set_attached, table_name, attached_catalog_name, attach_info, managed_info,
  internal_detach, attach_unless,
}

module _ {S : Type 0} where
  -- What holds behind a method that returns.
  pub record Leaves (P : S → Type 0) (m : Exec S (Unit {0})) : Type 0 where
    pub left : (s : S) → (m s).0 ≡ ok tt → P (m s).1

  continue-left :
      {A : Type 0} (P : S → Type 0) (r : Result A × S) (f : A → Exec S (Unit {0}))
      → ((a : A) → Leaves P (f a))
      → (continue r.0 f r.1).0 ≡ ok tt
      → P (continue r.0 f r.1).1
  continue-left P (ok a, s) f k h = (k a).left s h
  continue-left P (err e, s) f k h = cc

  pub >>=-Leaves :
      {A : Type 0} (P : S → Type 0) (m : Exec S A) (f : A → Exec S (Unit {0}))
      → ((a : A) → Leaves P (f a))
      → Leaves P (m >>= f)
  >>=-Leaves P m f k = record { left = λ s h. continue-left P (m s) f k h }

module _ {S : Type 0} (R : S → S → Type 0) where
  -- The relation holds between the states before and behind the method, however it ends.
  pub record Along {A : Type 0} (m : Exec S A) : Type 0 where
    pub step : (s : S) → R s (m s).1

  pub record IsPreorder : Type 0 where
    pub same : (s : S) → R s s
    pub join : {a b c : S} → R a b → R b c → R a c

module _ {S : Type 0} {R : S → S → Type 0} (pre : IsPreorder R) where
  pub pure-Along : {A : Type 0} (a : A) → Along R (pure a)
  pure-Along a = record { step = pre.same }

  continue-step :
      {A B : Type 0} (s : S) (r : Result A × S) (f : A → Exec S B)
      → R s r.1
      → ((a : A) → Along R (f a))
      → R s (continue r.0 f r.1).1
  continue-step s (ok a, s') f h k = pre.join h ((k a).step s')
  continue-step s (err e, s') f h k = h

  pub >>=-Along :
      {A B : Type 0} (m : Exec S A) (f : A → Exec S B)
      → Along R m
      → ((a : A) → Along R (f a))
      → Along R (m >>= f)
  >>=-Along m f h k = record { step = λ s. continue-step s (m s) f (h.step s) k }

  choice-step :
      {A : Type 0} (m n : Exec S A) (s : S) (c : Bool)
      → Along R m
      → Along R n
      → R s (if c then m s else n s).1
  choice-step m n s true h k = h.step s
  choice-step m n s false h k = k.step s

  pub choice-Along :
      {A : Type 0} (b : S → Bool) (m n : Exec S A)
      → Along R m
      → Along R n
      → Along R (λ s. if b s then m s else n s)
  choice-Along b m n h k = record { step = λ s. choice-step m n s (b s) h k }

module _ (env : AttachEnvironment) (parent : Parent) (t : Table) where
  -- The calls that attach a database and detach it.
  pub record Calls (R : TableState env parent t → TableState env parent t → Type 0) : Type 0 where
    pub order : IsPreorder R
    pub loads : (name : TableName) → Along R (on_world env parent t (env.load_table name))
    pub takes : (commits : CommitsResult) → Along R (take_commits env parent t commits)
    pub attaches : (info : TableAttachInfo) → Along R (on_world env parent t (env.attach info))
    pub detaches : (name : String) → Along R (on_world env parent t (env.detach name))
    pub sets : (b : Bool) → Along R (set_attached env parent t b)

  module _ {R : TableState env parent t → TableState env parent t → Type 0} (calls : Calls R) where
    pub internal_detach-Along : Along R (internal_detach env parent t)
    unfolding internal_detach
    internal_detach-Along =
        choice-Along calls.order (λ s. s.attached) _ (pure tt)
          (>>=-Along calls.order
            (on_world env parent t (env.detach (attached_catalog_name env parent t))) _
            (calls.detaches (attached_catalog_name env parent t)) λ u. calls.sets false)
          (pure-Along calls.order tt)

    managed_options-Along : Along R (managed_options env parent t)
    unfolding managed_options
    managed_options-Along = elim (Bool-cases (is_catalog_managed t)) [
      | inl e ↦ rw e (
          >>=-Along calls.order (on_world env parent t (env.load_table (table_name env parent t))) _
            (calls.loads (table_name env parent t))
            λ commits.
              >>=-Along calls.order (take_commits env parent t commits) _ (calls.takes commits)
                λ u. pure-Along calls.order (some (managed_info env parent t commits)))
      | inr e ↦ rw e (pure-Along calls.order none)
    ]

    pub attach_database-Along : Along R (attach_database env parent t)
    unfolding attach_database
    attach_database-Along =
        >>=-Along calls.order (managed_options env parent t) _ managed_options-Along λ managed.
          >>=-Along calls.order
            (on_world env parent t (env.attach (attach_info env parent t managed))) _
            (calls.attaches (attach_info env parent t managed)) λ u. calls.sets true

    pub attach_unless-Along : Along R (attach_unless env parent t)
    unfolding attach_unless
    attach_unless-Along =
        choice-Along calls.order (λ s. s.attached) (pure tt) _ (pure-Along calls.order tt)
          attach_database-Along
