-- ===== src/Api/Calls/Load/Ratified.antt =====
-- The ratified version that `LoadTable` of src/uc_api.cpp returns.
use unity_catalog.Base.{
  ℕ, ◌≤◌, ◌≡◌, refl, ap, ◌⊎◌, inl, inr, Option, List, [], ◌∷◌, All, true, false, ltb, arith, Bool,
  Bool-cases, sym, subst, if◌then◌else◌,
}
use unity_catalog.Json.{Yyjson, get?, obj?, arr?, items?}
use unity_catalog.Result.{ok, traverse, >>=-eq-ok, ok-injective}
use unity_catalog.Result.Exec as Exec
use unity_catalog.Http.{Http, Net}
use unity_catalog.Api.Data.{Credentials, TableName, Commit, CommitsResult}
use unity_catalog.Api.Fields.{try_get_num, try_get_str}
use unity_catalog.Api.Calls.{delta_table_url, ask}
use unity_catalog.Api.Calls.Answer.{Answers, ask-Answers}
use unity_catalog.Api.Calls.Load.{
  max_commit_version, ratified, read_commit, read_commits, load_table,
}

-- One of the commits has this version.
abbrev pub Has : ℕ → List Commit → Type 0
Has v [] = ⊥
Has v (c ∷ cs) = (c.version ≡ v) ⊎ Has v cs

Has-step :
    (b : Bool) (m x : ℕ) (c : Commit) (cs : List Commit)
    → (x ≡ (if b then c.version else m)) ⊎ Has x cs
    → (x ≡ m) ⊎ Has x (c ∷ cs)
Has-step true m x c cs (inl e) = inr (inl (sym e))
Has-step false m x c cs (inl e) = inl e
Has-step b m x c cs (inr h) = inr (inr h)

max_commit_version-Has :
    (m : ℕ) (cs : List Commit) → (max_commit_version m cs ≡ m) ⊎ Has (max_commit_version m cs) cs
unfolding max_commit_version
max_commit_version-Has m [] = inl refl
max_commit_version-Has m (c ∷ cs) =
    Has-step (ltb m c.version) m _ c cs
      (max_commit_version-Has (if ltb m c.version then c.version else m) cs)

max_commit_version-le : (m : ℕ) (cs : List Commit) → m ≤ max_commit_version m cs
unfolding max_commit_version
max_commit_version-le m [] = omega arith
max_commit_version-le m (c ∷ cs) =
    ground (arith, max_commit_version-le c.version cs, max_commit_version-le m cs)

All-weaken :
    (m n : ℕ) (cs : List Commit) → m ≤ n → All (λ c. c.version ≤ m) cs → All (λ c. c.version ≤ n) cs
All-weaken m n [] le h = tt
All-weaken m n (c ∷ cs) le h = (omega arith, All-weaken m n cs le h.1)

max_commit_version-All :
    (m : ℕ) (cs : List Commit) → All (λ c. c.version ≤ max_commit_version m cs) cs
unfolding max_commit_version
max_commit_version-All m [] = tt
max_commit_version-All m (c ∷ cs) = (
  ground (arith, max_commit_version-le (if ltb m c.version then c.version else m) cs),
  max_commit_version-All (if ltb m c.version then c.version else m) cs,
)

-- The version is one that the server names: its latest, or that of a commit; no commit is above it.
abbrev pub Covers : ℕ → List Commit → ℕ → Type 0
Covers server_ltv commits v =
    All (λ c. c.version ≤ v) commits × (server_ltv ≤ v) × ((v ≡ server_ltv) ⊎ Has v commits)

ratified-Covers :
    (server_ltv : ℕ) (cs : List Commit) → Covers server_ltv cs (ratified server_ltv cs)
unfolding ratified
ratified-Covers server_ltv cs = elim (Bool-cases (ltb (max_commit_version 0 cs) server_ltv)) [
  | inl above ↦ rw above (
    All-weaken (max_commit_version 0 cs) server_ltv cs (ground arith) (max_commit_version-All 0 cs),
    omega arith,
    inl refl,
  )
  | inr below ↦ rw below (
    max_commit_version-All 0 cs,
    ground arith,
    elim (max_commit_version-Has 0 cs) [ inl e ↦ inl (ground arith) | inr h ↦ inr h ],
  )
]

module _ (json : Yyjson) where
  open json use {Val}

  -- What a result says of the response that it was read from.
  abbrev pub Tells : Option Val → CommitsResult → Type 0
  Tells root result =
      (server_ltv : ℕ) × (try_get_num json root "latest-table-version" false ≡ ok server_ltv)
      × Covers server_ltv result.commits result.ratified_version

  read_commits-Tells :
      (root : Option Val) (result : CommitsResult)
      → read_commits json root ≡ ok result
      → Tells root result
  unfolding read_commits
  read_commits-Tells root result h =
      let metadata = obj? json (get? json root "metadata") in
      let (etag, _, h1) = >>=-eq-ok (try_get_str json metadata "etag" false) _ h in
      let (uuid, _, h2) = >>=-eq-ok (try_get_str json metadata "table-uuid" false) _ h1 in
      let (location, _, h3) = >>=-eq-ok (try_get_str json metadata "location" false) _ h2 in
      let (ltv, e, h4) = >>=-eq-ok (try_get_num json root "latest-table-version" false) _ h3 in
      let (commits, _, h5) =
        >>=-eq-ok (traverse (read_commit json) (items? json (arr? json (get? json root "commits"))))
          _ h4 in
      (
        ltv,
        e,
        subst (λ r. Covers ltv r.commits r.ratified_version) (ok-injective h5)
            (ratified-Covers ltv commits),
      )

  module _ (http : Http) (c : Credentials) where
    -- A table that LoadTable returns was read from a response without an error; its ratified version
    -- is not below the version of any of its commits nor below the server's `latest-table-version`
    -- (0 where that is absent), and is the latter or the version of one of the commits.
    pub load_table-Tells :
        (t : TableName) (n : Net http) (result : CommitsResult)
        → (load_table json http c t n).0 ≡ ok result
        → (root : Option Val) × Answers json http c (delta_table_url c t) [] n root
          × Tells root result
    unfolding load_table
    load_table-Tells t n result h =
        let url = delta_table_url c t in
        let (root, n', e, h1) = Exec.>>=-eq-ok (ask json http c url []) _ n h in
        (
          root,
          ask-Answers json http c url [] n (ap (λ r. r.0) e),
          read_commits-Tells root result h1,
        )
