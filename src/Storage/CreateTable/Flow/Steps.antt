-- ===== src/Storage/CreateTable/Flow/Steps.antt =====
-- What the steps of `UCTableSet::CreateTable` (src/storage/uc_table_set.cpp) leave in the log of calls.
use unity_catalog.Base.{
  ◌≡◌, refl, ◌∙◌, String, List, ◌∷◌, Bool, ◌||◌, Text, lit, Bool-cases, inl, inr, starts_with,
}
use unity_catalog.Json.{Yyjson}
use unity_catalog.Result.{Exception, Result, ok, err, Result-cases}
use unity_catalog.Result.Exec.{pure}
use unity_catalog.Api.Data.{TableName, CommitsResult, StagingTable, CommittedTable}
use unity_catalog.Storage.CreateTable.Committed.{read_committed_table}
use unity_catalog.Storage.CreateTable.Environment.{
  Environment, Run, Event, attached, detached, registered, other, Options, AttachInfo, call,
  call_ok,
}
use unity_catalog.Storage.CreateTable.Environment.Keeps.{
  Keeps, Skips, call-Keeps, lift-Keeps, >>=-Keeps, continue-Keeps,
}
use unity_catalog.Storage.CreateTable.Options.{managed_options}
use unity_catalog.Storage.CreateTable.Registration.{
  is_interrupt, is_catalog_exception, stage_credentials, detach_behind, write_log,
  write_version_zero, settle, register_table,
}
use unity_catalog.Storage.CreateTable.Flow.{
  Statement, Settings, managed_info, managed_registered, write_managed, with_staging,
  create_managed,
}

module _ (env : Environment) {X : Type 0} (view : List Event → X) (others : Skips env view other)
    (names : (n : String) → Skips env view (registered n))
    (pairs : (n : String) (es fs : List Event)
      → view fs ≡ view (attached n ∷ es)
      → view (detached n ∷ fs) ≡ view es) where
  pub other-Keeps :
      {A : Type 0} (op : env.W → Result A × env.W) → Keeps env view (call env other op)
  other-Keeps op = call-Keeps env view other op others

  detach_behind-view :
      (name : String) (es : List Event) (r : Result CommittedTable × Run env)
      → view r.1.events ≡ view (attached name ∷ es)
      → view (detach_behind env name r).1.events ≡ view es
  unfolding detach_behind call
  detach_behind-view name es (err e, s) h = pairs name es s.events h
  detach_behind-view name es (ok committed, s) h =
      continue-Keeps env view (view es) (call env (detached name) (env.detach name) s)
        (λ u. pure committed) (pairs name es s.events h) λ u. lift-Keeps env view (ok committed)

  write_log-Keeps :
      (json : Yyjson) (options : Options) (name table_name : String) (location : Text)
      → Keeps env view (write_log env json options name table_name location)
  unfolding write_log
  write_log-Keeps json options name table_name location =
      >>=-Keeps env view (call env other (env.create_delta_table name options)) _
        (other-Keeps (env.create_delta_table name options))
        λ u.
          >>=-Keeps env view (call env other (env.read_version_zero location)) _
            (other-Keeps (env.read_version_zero location))
            λ contents. lift-Keeps env view (read_committed_table json table_name location contents)

  pub write_version_zero-Keeps :
      (json : Yyjson) (options : Options) (info : AttachInfo) (table_name : String)
      (location : Text)
      → Keeps env view (write_version_zero env json options info table_name location)
  unfolding write_version_zero call_ok
  write_version_zero-Keeps json options info table_name location = record {
    same = λ s. elim (Result-cases (env.attach info s.world).0) [
      | inl (e, p) ↦ rw (p, write_version_zero, call_ok) refl
      | inr (u, p) ↦
          rw (p, write_version_zero, call_ok)
            (detach_behind-view info.name s.events _
              ((write_log-Keeps json options info.name table_name location).same _))
    ];
  }

  settle-view :
      (is_ours : CommitsResult → Bool) (t : TableName) (e : Exception) (s : Run env)
      → view (settle env is_ours t e s).1.events ≡ view s.events
  unfolding settle call
  settle-view is_ours t e s = elim (Result-cases (env.load_table t s.world).0) [
    | inl (x, p) ↦ rw (p, settle) (others s.events)
    | inr (loaded, p) ↦ elim (Bool-cases (is_ours loaded)) [
      | inl o ↦ rw (p, settle, o) (others s.events)
      | inr o ↦ rw (p, settle, o) (others s.events)
    ]
  ]

  pub register_table-view :
      (t : TableName) (committed : CommittedTable) (table_type : String)
      (is_ours : CommitsResult → Bool) (s : Run env)
      → view (register_table env t committed table_type is_ours s).1.events ≡ view s.events
  unfolding register_table call
  register_table-view t committed table_type is_ours s =
      elim (Result-cases (env.create_table t committed table_type s.world).0) [
        | inr (u, p) ↦ rw (p, register_table) (names t.table_name s.events)
        | inl (e, p) ↦ elim (Bool-cases (is_interrupt e || is_catalog_exception e)) [
          | inl plain ↦ rw (p, register_table, plain) (names t.table_name s.events)
          | inr unclear ↦
              rw (p, register_table, unclear)
                (settle-view is_ours t e _ ∙ names t.table_name s.events)
        ]
      ]

  stage_credentials-Keeps :
      (region : String) (staging : StagingTable)
      → Keeps env view (stage_credentials env region staging)
  unfolding stage_credentials
  stage_credentials-Keeps region staging =
      elim (Bool-cases (starts_with (lit staging.location) (lit "file://"))) [
        | inl local ↦ rw (local, stage_credentials) (lift-Keeps env view (ok tt))
        | inr remote ↦
            rw (remote, stage_credentials)
              (>>=-Keeps env view
                (call env other (env.get_staging_table_credentials staging.table_id)) _
                (other-Keeps (env.get_staging_table_credentials staging.table_id))
                λ credentials. other-Keeps _)
      ]

  module _ (json : Yyjson) (lower : String → String) (settings : Settings) (st : Statement) where
    managed_registered-view :
        (r : Result (Unit {0}) × Run env)
        → view (managed_registered env json lower settings st r).1.events ≡ view r.1.events
    unfolding managed_registered
    managed_registered-view (ok u, s) = refl
    managed_registered-view (err e, s) = refl

    write_managed-Keeps :
        (staging : StagingTable) → Keeps env view (write_managed env json lower settings st staging)
    unfolding write_managed
    write_managed-Keeps staging =
        >>=-Keeps env view (stage_credentials env settings.aws_region staging) _
          (stage_credentials-Keeps settings.aws_region staging)
          λ u.
            >>=-Keeps env view
              (write_version_zero env json (managed_options lower staging st.options)
                (managed_info settings st.name staging) st.name.table_name (lit staging.location))
              _ (write_version_zero-Keeps json _ _ _ _)
              λ committed. record {
                same = λ s.
                    managed_registered-view (register_table env st.name committed "MANAGED" _ s)
                    ∙ register_table-view st.name committed "MANAGED" _ s;
              }

    with_staging-view :
        (x : X) (r : Result StagingTable × Run env)
        → view r.1.events ≡ x
        → view (with_staging env json lower settings st r).1.events ≡ x
    unfolding with_staging
    with_staging-view x (ok staging, s) h = (write_managed-Keeps staging).same s ∙ h
    with_staging-view x (err e, s) h = h

    pub create_managed-Keeps : Keeps env view (create_managed env json lower settings st)
    unfolding create_managed
    create_managed-Keeps = record {
      same = λ s.
          with_staging-view (view s.events) (call env other (env.create_staging_table st.name) s)
            ((other-Keeps (env.create_staging_table st.name)).same s);
    }
