-- ===== src/Storage/CreateTable/Registration/Outcome.antt =====
-- When a registration counts as done (`RegisterTable` of src/storage/uc_table_set.cpp).
use unity_catalog.Base.{
  ◌≡◌, ◌↔◌, ◌⊎◌, inl, inr, refl, String, Bool, true, false, ◌||◌, Bool-cases, arith, if◌then◌else◌,
}
use unity_catalog.Result.{Exception, Result, ok, err, Result-cases}
use unity_catalog.Api.Data.{TableName, CommitsResult, CommittedTable}
use unity_catalog.Storage.CreateTable.Environment.{Environment, Run, call}
use unity_catalog.Storage.CreateTable.Registration.{
  is_catalog_exception, is_interrupt, settle, register_table,
}

-- The call returned; or it failed, by an exception that leaves its outcome open, and the server then
-- has the table just written.
abbrev pub Registers : (CommitsResult → Bool) → Result (Unit {0}) → Result CommitsResult → Type 0
Registers is_ours posted reloaded =
    (posted ≡ ok tt)
    ⊎ ((e : Exception) × (loaded : CommitsResult) × (posted ≡ err e)
        × (is_interrupt e ≡ false)
        × (is_catalog_exception e ≡ false)
        × (reloaded ≡ ok loaded)
        × (is_ours loaded ≡ true))

-- What the answers of the two calls come to.
verdict : (CommitsResult → Bool) → Result (Unit {0}) → Result CommitsResult → Result (Unit {0})
verdict is_ours (ok u) reloaded = ok tt
verdict is_ours (err e) (err x) = err e
verdict is_ours (err e) (ok loaded) =
    if is_interrupt e || is_catalog_exception e
    then err e
    else if is_ours loaded
    then ok tt
    else err e

refused :
    {is_ours : CommitsResult → Bool} (e : Exception) (loaded : CommitsResult)
    → ((d : Exception) (l : CommitsResult)
        → ◌≡◌ {A = Result (Unit {0})} (err e) (err d)
        → is_interrupt d ≡ false
        → is_catalog_exception d ≡ false
        → ◌≡◌ {A = Result CommitsResult} (ok loaded) (ok l)
        → is_ours l ≡ true
        → ⊥)
    → ((◌≡◌ {A = Result (Unit {0})} (err e) (ok tt)) ↔ Registers is_ours (err e) (ok loaded))
      × ((d : Exception)
          → ◌≡◌ {A = Result (Unit {0})} (err e) (err d)
          → ◌≡◌ {A = Result (Unit {0})} (err e) (err d))
refused e loaded never = (
  (
    λ q. absurd (cc q),
    λ r. elim r [
      | inl q ↦ absurd (cc q)
      | inr (d, l, p, h1, h2, h3, h4) ↦ absurd (never d l p h1 h2 h3 h4)
    ],
  ),
  λ d q. q,
)

verdict-Registers :
    (is_ours : CommitsResult → Bool) (posted : Result (Unit {0})) (reloaded : Result CommitsResult)
    → ((verdict is_ours posted reloaded ≡ ok tt) ↔ Registers is_ours posted reloaded)
      × ((e : Exception) → verdict is_ours posted reloaded ≡ err e → posted ≡ err e)
unfolding verdict
verdict-Registers is_ours (ok u) reloaded = ((λ q. inl refl, λ r. refl), λ e q. absurd (cc q))
verdict-Registers is_ours (err e) (err x) = (
  (
    λ q. absurd (cc q),
    λ r. elim r [ inl q ↦ absurd (cc q) | inr (_, _, _, _, _, q, _) ↦ absurd (cc q) ],
  ),
  λ d q. q,
)
verdict-Registers is_ours (err e) (ok loaded) = elim (Bool-cases (is_interrupt e)) [
  | inl i ↦ rw i (refused e loaded (λ d l p h1 h2 h3 h4. cc))
  | inr i ↦ elim (Bool-cases (is_catalog_exception e)) [
    | inl k ↦ rw (i, k) (refused e loaded (λ d l p h1 h2 h3 h4. cc))
    | inr k ↦ elim (Bool-cases (is_ours loaded)) [
      | inl o ↦
          rw (i, k, o)
            ((λ q. inr (e, loaded, refl, i, k, refl, o), λ r. refl), λ d q. absurd (cc q))
      | inr o ↦ rw (i, k, o) (refused e loaded (λ d l p h1 h2 h3 h4. cc))
    ]
  ]
]

module _ (env : Environment) (t : TableName) (committed : CommittedTable) (table_type : String)
    (is_ours : CommitsResult → Bool) (s : Run env) where
  -- The call of the server, and the load behind it.
  abbrev pub posted : Result (Unit {0}) × env.W
  posted = env.create_table t committed table_type s.world

  abbrev pub reloaded : Result CommitsResult × env.W
  reloaded = env.load_table t posted.1

  register_table-verdict :
      (register_table env t committed table_type is_ours s).0 ≡ verdict is_ours posted.0 reloaded.0
  unfolding register_table call verdict settle
  register_table-verdict = elim (Result-cases posted.0) [
    | inr (u, p) ↦ rw (p, register_table, verdict)
    | inl (e, p) ↦ elim (Result-cases reloaded.0) [
      | inl (x, l) ↦ rw (p, register_table, verdict, l) (ground arith)
      | inr (loaded, l) ↦ rw (p, register_table, verdict, l) (ground arith)
    ]
  ]

  -- RegisterTable returns exactly if the registration did, or failed by an exception that is neither
  -- of an interrupt nor of the catalog and the server then turns out to have the table that was
  -- written; and an exception of it is always that of the registration itself, never that of the
  -- load behind it.
  pub register_table-Registers :
      (((register_table env t committed table_type is_ours s).0 ≡ ok tt)
        ↔ Registers is_ours posted.0 reloaded.0)
      × ((e : Exception)
          → (register_table env t committed table_type is_ours s).0 ≡ err e
          → posted.0 ≡ err e)
  register_table-Registers =
      rw register_table-verdict (verdict-Registers is_ours posted.0 reloaded.0)
