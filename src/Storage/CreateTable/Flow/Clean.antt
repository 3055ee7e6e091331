-- ===== src/Storage/CreateTable/Flow/Clean.antt =====
-- When `UCTableSet::CreateTable` (src/storage/uc_table_set.cpp) removes files, reloads the set, and
-- does nothing at all.
use unity_catalog.Base.{
  arith, ◌≢◌, ◌≡◌, refl, ◌∙◌, inl, inr, String, List, Bool, true, false, Text, Bool-cases,
  Option-cases, if◌then◌else◌, none,
}
use unity_catalog.Json.{Yyjson}
use unity_catalog.Result.{Exception, Result, ok, err, invalid_input, entry_already_exists}
use unity_catalog.Result.Exec.{Exec, lift, ◌>>=◌, continue}
use unity_catalog.Storage.CreateTable.Location.{external_location}
use unity_catalog.Storage.CreateTable.Environment.{
  Environment, Run, other, OptionValue, constant, call,
}
use unity_catalog.Storage.CreateTable.Environment.Keeps.{Keeps, call-Keeps, lift-Keeps}
use unity_catalog.Storage.CreateTable.Options.{set_option, find_option}
use unity_catalog.Storage.CreateTable.Registration.{write_version_zero, register_table}
use unity_catalog.Storage.CreateTable.Registration.Removal.{removed_files}
use unity_catalog.Storage.CreateTable.Flow.{
  Statement, Done, created, kept, Settings, external_info, on_conflict, external_registered,
  write_external, create_external, create_managed, run_statement, after, create_table,
}
use unity_catalog.Storage.CreateTable.Flow.Steps.{
  write_version_zero-Keeps, register_table-view, create_managed-Keeps,
}

-- A method that removes nothing where it ends with a table that was created.
record Spares (env : Environment) (m : Exec (Run env) Done) : Type 0 where
  spared :
      (s : Run env) → (m s).0 ≡ ok created → removed_files (m s).1.events ≡ removed_files s.events

module _ (env : Environment) where
  continue-spared :
      {A : Type 0} (x : List Text) (r : Result A × Run env) (f : A → Exec (Run env) Done)
      → removed_files r.1.events ≡ x
      → ((a : A) → Spares env (f a))
      → (continue r.0 f r.1).0 ≡ ok created
      → removed_files (continue r.0 f r.1).1.events ≡ x
  continue-spared x (ok a, s) f h k q = (k a).spared s q ∙ h
  continue-spared x (err e, s) f h k q = h

  >>=-Spares :
      {A : Type 0} (m : Exec (Run env) A) (f : A → Exec (Run env) Done)
      → Keeps env removed_files m
      → ((a : A) → Spares env (f a))
      → Spares env (m >>= f)
  >>=-Spares m f h k = record {
    spared = λ s. continue-spared (removed_files s.events) (m s) f (h.same s) k;
  }

  Keeps-Spares : (m : Exec (Run env) Done) → Keeps env removed_files m → Spares env m
  Keeps-Spares m h = record { spared = λ s q. h.same s }

  call_other :
      {A : Type 0} (op : env.W → Result A × env.W) → Keeps env removed_files (call env other op)
  call_other op = call-Keeps env removed_files other op (λ es. refl)

  choice-Spares :
      (b : Bool) (m n : Exec (Run env) Done)
      → Spares env m
      → Spares env n
      → Spares env (if b then m else n)
  choice-Spares true m n h k = h
  choice-Spares false m n h k = k

on_conflict-ne-created : (b : Bool) (e : Exception) → on_conflict b e ≢ ok created
unfolding on_conflict
on_conflict-ne-created b e = λ q. ground arith

module _ (env : Environment) (json : Yyjson) (lower : String → String) (settings : Settings)
    (st : Statement) where
  external_registered-spared :
      (location : Text) (r : Result (Unit {0}) × Run env)
      → (external_registered env json lower settings st location r).0 ≡ ok created
      → removed_files (external_registered env json lower settings st location r).1.events
        ≡ removed_files r.1.events
  unfolding external_registered
  external_registered-spared location (ok u, s) q = refl
  external_registered-spared location (err e, s) q =
      absurd (on_conflict-ne-created st.if_not_exists e q)

  write_external-Spares :
      (location : Text) → Spares env (write_external env json lower settings st location)
  unfolding write_external
  write_external-Spares location =
      >>=-Spares env (call env other env.new_uuid) _ (call_other env env.new_uuid) λ uuid.
        >>=-Spares env
          (write_version_zero env json (set_option lower "location" (constant location) st.options)
            (external_info uuid st.name.table_name location) st.name.table_name location)
          _
          (write_version_zero-Keeps env removed_files (λ es. refl) (λ n es. refl) (λ n es fs h. h)
            json _ _ _ _)
          λ committed. record {
            spared = λ s q.
                external_registered-spared location
                  (register_table env st.name committed "EXTERNAL" _ s) q
                ∙ register_table-view env removed_files (λ es. refl) (λ n es. refl) (λ n es fs h. h)
                    st.name committed "EXTERNAL" _ s;
          }

  create_external-Spares :
      (option : OptionValue) → Spares env (create_external env json lower settings st option)
  unfolding create_external
  create_external-Spares option =
      >>=-Spares env (call env other (env.evaluate option)) _ (call_other env (env.evaluate option))
        λ value.
          >>=-Spares env (lift (external_location value)) _
            (lift-Keeps env removed_files (external_location value))
            λ location.
              >>=-Spares env (call env other (env.table_exists st.name)) _
                (call_other env (env.table_exists st.name))
                λ exists.
                  choice-Spares env exists
                    (lift (on_conflict st.if_not_exists entry_already_exists))
                    (write_external env json lower settings st location)
                    (Keeps-Spares env _ (lift-Keeps env removed_files _))
                    (write_external-Spares location)

  managed-Keeps : Keeps env removed_files (create_managed env json lower settings st)
  managed-Keeps =
      create_managed-Keeps env removed_files (λ es. refl) (λ n es. refl) (λ n es fs h. h) json lower
        settings st

  run_statement-Spares : Spares env (run_statement env json lower settings st)
  unfolding run_statement
  run_statement-Spares = elim (Bool-cases settings.read_only) [
    | inl e ↦
        rw (e, run_statement)
          (Keeps-Spares env _ (lift-Keeps env removed_files (err invalid_input)))
    | inr e ↦ elim (Option-cases (find_option lower "location" st.options)) [
      | inl managed ↦ rw (e, run_statement, managed) (Keeps-Spares env _ managed-Keeps)
      | inr (option, p) ↦ rw (e, run_statement, p) (create_external-Spares option)
    ]
  ]

  run_statement-managed :
      (s : Run env)
      → find_option lower "location" st.options ≡ none
      → removed_files (run_statement env json lower settings st s).1.events ≡ removed_files s.events
  unfolding run_statement
  run_statement-managed s p = elim (Bool-cases settings.read_only) [
    | inl e ↦ rw (e, run_statement) refl
    | inr e ↦ rw (e, run_statement, p) (managed-Keeps.same s)
  ]

  after-created :
      (r : Result Done × Run env)
      → (after env json lower settings true r).1 ≡ false
      → (r.0 ≡ ok created) × ((after env json lower settings true r).0 ≡ ok tt)
  unfolding after
  after-created (ok created, s) h = (refl, refl)
  after-created (ok kept, s) h = absurd (cc h)
  after-created (err e, s) h = absurd (cc h)

  after-run :
      (is_loaded : Bool) (r : Result Done × Run env)
      → (after env json lower settings is_loaded r).2 ≡ r.1
  unfolding after
  after-run is_loaded (ok created, s) = refl
  after-run is_loaded (ok kept, s) = refl
  after-run is_loaded (err e, s) = refl

  run_statement-read_only :
      (s : Run env)
      → settings.read_only ≡ true
      → run_statement env json lower settings st s ≡ (err invalid_input, s)
  unfolding run_statement
  run_statement-read_only s e = rw (e, run_statement) refl

  after-refused :
      (is_loaded : Bool) (s : Run env)
      → after env json lower settings is_loaded (err invalid_input, s)
        ≡ (err invalid_input, is_loaded, s)
  unfolding after
  after-refused is_loaded s = refl

  -- In a read-only catalog CREATE TABLE throws, and calls nothing. A loaded set is marked for a
  -- reload only where the statement returns, and then no file was removed on the way; no file is
  -- removed, however it ends, where the statement names no location.
  pub create_table-Clean :
      (is_loaded : Bool) (s : Run env)
      → (settings.read_only ≡ true
          → create_table env json lower settings st is_loaded s ≡ (err invalid_input, is_loaded, s))
        × ((create_table env json lower settings st true s).1 ≡ false
            → ((create_table env json lower settings st true s).0 ≡ ok tt)
              × (removed_files (create_table env json lower settings st true s).2.events
                  ≡ removed_files s.events))
        × (find_option lower "location" st.options ≡ none
            → removed_files (create_table env json lower settings st is_loaded s).2.events
              ≡ removed_files s.events)
  unfolding create_table
  create_table-Clean is_loaded s =
      let r = run_statement env json lower settings st s in
      (
        (λ e. rw (run_statement-read_only s e) (after-refused is_loaded s)),
        (λ h.
            let (made, fine) = after-created r h in
            (fine, rw (after-run true r) (run_statement-Spares.spared s made))),
        λ p. rw (after-run is_loaded r) (run_statement-managed s p),
      )
