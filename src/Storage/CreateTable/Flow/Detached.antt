-- ===== src/Storage/CreateTable/Flow/Detached.antt =====
-- The databases that `UCTableSet::CreateTable` (src/storage/uc_table_set.cpp) attaches are detached.
use unity_catalog.Base.{
  ◌≡◌, refl, ◌∙◌, String, List, [], ◌∷◌, Bool, true, false, Text, lit, str_eq, eq_iff, Bool-cases,
  Option-cases, inl, inr, if◌then◌else◌,
}
use unity_catalog.Json.{Yyjson}
use unity_catalog.Result.{Result, ok, err, invalid_input, entry_already_exists}
use unity_catalog.Result.Exec.{Exec, lift, pure}
use unity_catalog.Api.Data.{TableName}
use unity_catalog.Storage.CreateTable.Location.{external_location}
use unity_catalog.Storage.CreateTable.Environment.{
  Environment, Run, Event, attached, detached, removed, registered, other, OptionValue, constant,
  call,
}
use unity_catalog.Storage.CreateTable.Environment.Keeps.{Keeps, call-Keeps, lift-Keeps, >>=-Keeps}
use unity_catalog.Storage.CreateTable.Options.{set_option, find_option}
use unity_catalog.Storage.CreateTable.Registration.{
  same_location, located, listed_at, remove_files, remove_version_zero,
  remove_unregistered_version_zero, write_version_zero, register_table,
}
use unity_catalog.Storage.CreateTable.Flow.{
  Statement, Done, created, kept, Settings, external_info, on_conflict, external_registered,
  write_external, create_external, run_statement, after, create_table,
}
use unity_catalog.Storage.CreateTable.Flow.Steps.{
  write_version_zero-Keeps, register_table-view, create_managed-Keeps,
}

-- The name is detached: its newest attachment is gone.
abbrev without : String → List String → List String
without name [] = []
without name (n ∷ rest) = if str_eq n name then rest else n ∷ without name rest

-- The databases that are attached, newest first.
abbrev pub open_names : List Event → List String
open_names [] = []
open_names (attached name ∷ es) = name ∷ open_names es
open_names (detached name ∷ es) = without name (open_names es)
open_names (removed path ∷ es) = open_names es
open_names (registered name ∷ es) = open_names es
open_names (other ∷ es) = open_names es

open_names-pairs :
    (n : String) (es fs : List Event)
    → open_names fs ≡ open_names (attached n ∷ es)
    → open_names (detached n ∷ fs) ≡ open_names es
open_names-pairs n es fs h = rw (h, (eq_iff n n).1 refl) refl

module _ (env : Environment) where
  call_other :
      {A : Type 0} (op : env.W → Result A × env.W) → Keeps env open_names (call env other op)
  call_other op = call-Keeps env open_names other op (λ es. refl)

  remove_files-Keeps : (paths : List Text) → Keeps env open_names (remove_files env paths)
  unfolding remove_files
  remove_files-Keeps [] = lift-Keeps env open_names (ok tt)
  remove_files-Keeps (path ∷ rest) =
      >>=-Keeps env open_names (call env (removed path) (env.remove_file path)) _
        (call-Keeps env open_names (removed path) (env.remove_file path) (λ es. refl))
        λ u. remove_files-Keeps rest

  remove_version_zero-Keeps :
      (location : Text) → Keeps env open_names (remove_version_zero env location)
  unfolding remove_version_zero
  remove_version_zero-Keeps location =
      >>=-Keeps env open_names (call env other (env.glob_version_zero location)) _
        (call_other (env.glob_version_zero location)) λ files. remove_files-Keeps files

  located-Keeps : (t : TableName) (location : Text) → Keeps env open_names (located env t location)
  unfolding located
  located-Keeps t location =
      >>=-Keeps env open_names (call env other (env.load_table t)) _ (call_other (env.load_table t))
        λ loaded. lift-Keeps env open_names (ok (same_location (lit loaded.location) location))

  choice-Keeps :
      {A : Type 0} (b : Bool) (m n : Exec (Run env) A)
      → Keeps env open_names m
      → Keeps env open_names n
      → Keeps env open_names (if b then m else n)
  choice-Keeps true m n h k = h
  choice-Keeps false m n h k = k

  listed_at-Keeps :
      (t : TableName) (location : Text) → Keeps env open_names (listed_at env t location)
  unfolding listed_at
  listed_at-Keeps t location =
      >>=-Keeps env open_names (call env other (env.table_exists t)) _
        (call_other (env.table_exists t))
        λ exists.
          choice-Keeps exists (located env t location) (pure false) (located-Keeps t location)
            (lift-Keeps env open_names (ok false))

  remove_unregistered-view :
      (t : TableName) (location : Text) (s : Run env)
      → open_names (remove_unregistered_version_zero env t location s).events ≡ open_names s.events
  unfolding remove_unregistered_version_zero
  remove_unregistered-view t location s =
      (>>=-Keeps env open_names (listed_at env t location) _ (listed_at-Keeps t location) λ listed.
          choice-Keeps listed (pure tt) (remove_version_zero env location)
            (lift-Keeps env open_names (ok tt)) (remove_version_zero-Keeps location)).same
        s

  module _ (json : Yyjson) (lower : String → String) (settings : Settings) (st : Statement) where
    external_registered-view :
        (location : Text) (r : Result (Unit {0}) × Run env)
        → open_names (external_registered env json lower settings st location r).1.events
          ≡ open_names r.1.events
    unfolding external_registered
    external_registered-view location (ok u, s) = refl
    external_registered-view location (err e, s) = remove_unregistered-view st.name location s

    write_external-Keeps :
        (location : Text)
        → Keeps env open_names (write_external env json lower settings st location)
    unfolding write_external
    write_external-Keeps location =
        >>=-Keeps env open_names (call env other env.new_uuid) _ (call_other env.new_uuid) λ uuid.
          >>=-Keeps env open_names
            (write_version_zero env json
              (set_option lower "location" (constant location) st.options)
              (external_info uuid st.name.table_name location) st.name.table_name location)
            _
            (write_version_zero-Keeps env open_names (λ es. refl) (λ n es. refl) open_names-pairs
              json _ _ _ _)
            λ committed. record {
              same = λ s.
                  external_registered-view location
                    (register_table env st.name committed "EXTERNAL" _ s)
                  ∙ register_table-view env open_names (λ es. refl) (λ n es. refl) open_names-pairs
                      st.name committed "EXTERNAL" _ s;
            }

    create_external-Keeps :
        (option : OptionValue)
        → Keeps env open_names (create_external env json lower settings st option)
    unfolding create_external
    create_external-Keeps option =
        >>=-Keeps env open_names (call env other (env.evaluate option)) _
          (call_other (env.evaluate option))
          λ value.
            >>=-Keeps env open_names (lift (external_location value)) _
              (lift-Keeps env open_names (external_location value))
              λ location.
                >>=-Keeps env open_names (call env other (env.table_exists st.name)) _
                  (call_other (env.table_exists st.name))
                  λ exists.
                    choice-Keeps exists (lift (on_conflict st.if_not_exists entry_already_exists))
                      (write_external env json lower settings st location)
                      (lift-Keeps env open_names _) (write_external-Keeps location)

    run_statement-Keeps : Keeps env open_names (run_statement env json lower settings st)
    unfolding run_statement
    run_statement-Keeps = elim (Bool-cases settings.read_only) [
      | inl e ↦ rw (e, run_statement) (lift-Keeps env open_names (err invalid_input))
      | inr e ↦ elim (Option-cases (find_option lower "location" st.options)) [
        | inl managed ↦
            rw (e, run_statement, managed)
              (create_managed-Keeps env open_names (λ es. refl) (λ n es. refl) open_names-pairs json
                lower settings st)
        | inr (option, p) ↦ rw (e, run_statement, p) (create_external-Keeps option)
      ]
    ]

    after-run :
        (is_loaded : Bool) (r : Result Done × Run env)
        → (after env json lower settings is_loaded r).2 ≡ r.1
    unfolding after
    after-run is_loaded (ok created, s) = refl
    after-run is_loaded (ok kept, s) = refl
    after-run is_loaded (err e, s) = refl

    -- However CREATE TABLE ends, by returning or by an exception of any of its steps, the databases
    -- that are attached behind it, with a detach counted as done once it is asked for, are those that
    -- were attached before.
    pub create_table-detaches :
        (is_loaded : Bool) (s : Run env)
        → open_names (create_table env json lower settings st is_loaded s).2.events
          ≡ open_names s.events
    unfolding create_table
    create_table-detaches is_loaded s =
        rw (after-run is_loaded (run_statement env json lower settings st s))
          (run_statement-Keeps.same s)
