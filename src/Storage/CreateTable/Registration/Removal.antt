-- ===== src/Storage/CreateTable/Registration/Removal.antt =====
-- When a file is removed (`RemoveUnregisteredVersionZero` of src/storage/uc_table_set.cpp).
use unity_catalog.Base.{
  ◌≡◌, refl, sym, ◌≢◌, ◌⊎◌, inl, inr, List, [], ◌∷◌, Bool, true, false, Text, lit, ap,
  if◌then◌else◌,
}
use unity_catalog.Result.{ok, Result-cases, ok-injective}
use unity_catalog.Result.Exec.{pure, >>=-eq-ok}
use unity_catalog.Api.Data.{TableName, CommitsResult}
use unity_catalog.Storage.CreateTable.Environment.{
  Environment, Run, Event, attached, detached, removed, registered, other, call,
}
use unity_catalog.Storage.CreateTable.Environment.Keeps.{Keeps, call-Keeps, lift-Keeps, >>=-Keeps}
use unity_catalog.Storage.CreateTable.Registration.{
  same_location, located, listed_at, remove_unregistered_version_zero,
}

-- The files that were asked to be removed, newest first.
abbrev pub removed_files : List Event → List Text
removed_files [] = []
removed_files (removed path ∷ es) = path ∷ removed_files es
removed_files (attached name ∷ es) = removed_files es
removed_files (detached name ∷ es) = removed_files es
removed_files (registered name ∷ es) = removed_files es
removed_files (other ∷ es) = removed_files es

module _ (env : Environment) (t : TableName) (location : Text) where
  located-Keeps : Keeps env removed_files (located env t location)
  unfolding located
  located-Keeps =
      >>=-Keeps env removed_files (call env other (env.load_table t)) _
        (call-Keeps env removed_files other (env.load_table t) (λ es. refl))
        λ loaded. lift-Keeps env removed_files (ok (same_location (lit loaded.location) location))

  listed_at-Keeps : Keeps env removed_files (listed_at env t location)
  unfolding listed_at
  listed_at-Keeps =
      >>=-Keeps env removed_files (call env other (env.table_exists t)) _
        (call-Keeps env removed_files other (env.table_exists t) (λ es. refl))
        λ exists.
          elim exists
            as (λ x. Keeps env removed_files (if x then located env t location else pure false)) [
              | true ↦ located-Keeps
              | false ↦ lift-Keeps env removed_files (ok false)
            ]

  -- The server said that it has no table of that name, or has it at another location.
  abbrev pub Unlisted : env.W → Type 0
  Unlisted w =
      ((env.table_exists t w).0 ≡ ok false)
      ⊎ (((env.table_exists t w).0 ≡ ok true)
          × (loaded : CommitsResult) × ((env.load_table t (env.table_exists t w).1).0 ≡ ok loaded)
          × (same_location (lit loaded.location) location ≡ false))

  exists-Unlisted :
      (w : env.W) (exists : Bool) (s : Run env)
      → (env.table_exists t w).0 ≡ ok exists
      → s.world ≡ (env.table_exists t w).1
      → ((if exists then located env t location else pure false) s).0 ≡ ok false
      → Unlisted w
  unfolding located call
  exists-Unlisted w false s e p h = inl e
  exists-Unlisted w true s e p h =
      let (loaded, s', q, h1) = >>=-eq-ok (call env other (env.load_table t)) _ s h in
      inr (e, loaded, rw (← p) (ap (λ r. r.0) q), ok-injective h1)

  listed_at-Unlisted : (s : Run env) → (listed_at env t location s).0 ≡ ok false → Unlisted s.world
  unfolding listed_at call
  listed_at-Unlisted s h =
      let (exists, s', e, h1) = >>=-eq-ok (call env other (env.table_exists t)) _ s h in
      exists-Unlisted s.world exists s' (ap (λ r. r.0) e) (sym (ap (λ r. r.1.world) e)) h1

  -- A file is removed only where the server said that it has no table of that name, or has it at
  -- another location: not where it has the table there, nor where it cannot say.
  pub removed-Unlisted :
      (s : Run env)
      → removed_files (remove_unregistered_version_zero env t location s).events
        ≢ removed_files s.events
      → Unlisted s.world
  unfolding remove_unregistered_version_zero
  removed-Unlisted s changed = elim (Result-cases (listed_at env t location s).0) [
    | inl (e, p) ↦
        absurd (changed (rw (p, remove_unregistered_version_zero) (listed_at-Keeps.same s)))
    | inr (true, p) ↦
        absurd (changed (rw (p, remove_unregistered_version_zero) (listed_at-Keeps.same s)))
    | inr (false, p) ↦ listed_at-Unlisted s p
  ]
