-- ===== src/Storage/Version/Bound.antt =====
-- The entry that a transaction's query of a version is bound to (`GetVersion` of
-- src/storage/uc_table_set.cpp).
use unity_catalog.Base.{Bool, String, Option, some, none, ◌≡◌, refl, subst, Option-cases, inl, inr}
use unity_catalog.Result.{Result, ok, err, ok-injective}
use unity_catalog.Result.Exec.{Exec, lift, continue, ◌>>=◌, ◌>>◌}
use unity_catalog.Api.Data.{Table}
use unity_catalog.Storage.Attach.{AttachEnvironment, Parent}
use unity_catalog.Storage.Table.{throw_if_interval_columns}
use unity_catalog.Storage.Transaction.{get_table_entry, set_table_entry}
use unity_catalog.Storage.Transaction.Stable.{Steps, Steps-keep, set-get}
use unity_catalog.Storage.Version.{
  AtClause, VersionEnvironment, VersionState, entry_key, entry_from_delta_log, store, versioned,
  bound_or, resolve_entry, get_version,
}

module _ (env : AttachEnvironment) (parent : Parent) (t : Table) (E : Type 0)
    (vers : VersionEnvironment env E) (reported : Option E) (unreadable : Bool) where
  abbrev State : Type 0
  State = VersionState env parent t E vers reported unreadable

  abbrev IsBound : String → E → State → Type 0
  IsBound key e s = get_table_entry E key s.transaction ≡ some e

  store-IsBound :
      (key : String) (entry e : E) (s : State)
      → (store env parent t E vers reported unreadable key entry s).0 ≡ ok e
      → IsBound key e (store env parent t E vers reported unreadable key entry s).1
  unfolding store
  store-IsBound key entry e s h =
      subst (λ x. get_table_entry E key (set_table_entry E key entry s.transaction).1 ≡ some x)
        (ok-injective h) (set-get E key entry s.transaction)

  versioned-IsBound :
      (key : String) (e : E) (r : Result (Option E) × State)
      → (continue r.0 (versioned env parent t E vers reported unreadable key) r.1).0 ≡ ok e
      → IsBound key e (continue r.0 (versioned env parent t E vers reported unreadable key) r.1).1
  unfolding versioned
  versioned-IsBound key e (ok (some entry), s) h = store-IsBound key entry e s h
  versioned-IsBound key e (ok none, s) h = cc
  versioned-IsBound key e (err x, s) h = cc

  module _ (at : AtClause) where
    abbrev bind : String → Exec State E
    bind =
        bound_or env parent t E vers reported unreadable (some at)
          (versioned env parent t E vers reported unreadable)

    bind-IsBound :
        (key : String) (e : E) (s : State) → (bind key s).0 ≡ ok e → IsBound key e (bind key s).1
    unfolding bound_or
    bind-IsBound key e s h = elim (Option-cases (get_table_entry E key s.transaction)) [
      | inr (x, p) ↦
          let same : x ≡ e = ok-injective (rw (p, bound_or) at h) in
          rw (p, bound_or) (subst (λ y. get_table_entry E key s.transaction ≡ some y) same p)
      | inl p ↦
          rw (p, bound_or)
            (versioned-IsBound key e
              (entry_from_delta_log env parent t E vers reported unreadable (some at) s)
              (rw (p, bound_or) at h))
    ]

    bind-again : (key : String) (e : E) (u : State) → IsBound key e u → bind key u ≡ (ok e, u)
    unfolding bound_or
    bind-again key e u p = rw (p, bound_or) refl

    again :
        (a : Result (Unit {0})) (k : Result String) (e : E) (s u : State)
        → ((lift a >> (lift k >>= bind)) s).0 ≡ ok e
        → Steps E ((lift a >> (lift k >>= bind)) s).1.transaction u.transaction
        → (lift a >> (lift k >>= bind)) u ≡ (ok e, u)
    again (ok tt) (ok key) e s u h later =
        bind-again key e u (
          Steps-keep E key e (bind key s).1.transaction u.transaction later
            (bind-IsBound key e s h))
    again (ok tt) (err x) e s u h later = cc
    again (err x) k e s u h later = cc

    -- The entry that a query of a version returns is what every later query of that version returns,
    -- whatever happens in between to the world, to the table and its attachment, to the gate and, by
    -- the transaction's own operations, to the transaction; and the later query changes nothing.
    pub get_version-again :
        (e : E) (s u : State)
        → (get_version env parent t E vers reported unreadable (some at) s).0 ≡ ok e
        → Steps E
            (get_version env parent t E vers reported unreadable (some at) s).1.transaction
            u.transaction
        → get_version env parent t E vers reported unreadable (some at) u ≡ (ok e, u)
    unfolding get_version resolve_entry
    get_version-again e s u h later =
        again (throw_if_interval_columns vers.lower t.columns)
          (entry_key vers.show_version vers.show_timestamp parent.schema t.name (some at)) e s u h
          later
