-- ===== src/Storage/SchemaSet/Load.antt =====
-- The schemas of a catalog (src/storage/uc_schema_set.cpp) are loaded once, and all of them.
use unity_catalog.Base.{
  String, ◌≡◌, refl, sym, ap, ◌∙◌, none, some, List, [], ◌∷◌, ◌++◌, All, true, false, str_eq,
  eq_iff, ℕ, zero, suc, get_elem?, Bool-cases, Option-cases, inl, inr,
}
use unity_catalog.Result.{Result, ok}
use unity_catalog.Api.Data.{Schema}
use unity_catalog.Result.Exec.{continue}
use unity_catalog.Storage.SchemaSet.{
  SchemaEntry, SchemaSetState, find, emplace, entry_of, add_entry, add_entries, Loading, load,
  loaded, ensure_loaded, get_entry, scan, create_entry,
}

find-append :
    (key : String) (e : SchemaEntry) (m n : List (String × SchemaEntry))
    → find key m ≡ some e
    → find key (m ++ n) ≡ some e
unfolding find
find-append key e [] n h = cc
find-append key e ((k, x) ∷ m) n h = elim (Bool-cases (str_eq k key)) [
  | inl hit ↦ rw hit (rw hit at h)
  | inr miss ↦ rw miss (find-append key e m n (rw miss at h))
]

find-last :
    (key : String) (e : SchemaEntry) (m : List (String × SchemaEntry))
    → find key m ≡ none
    → find key (m ++ (key, e) ∷ []) ≡ some e
unfolding find
find-last key e [] h = let same : str_eq key key ≡ true = (eq_iff key key).1 refl in rw same refl
find-last key e ((k, x) ∷ m) h = elim (Bool-cases (str_eq k key)) [
  | inl hit ↦ let none_is_some : some x ≡ none = rw hit at h in cc
  | inr miss ↦ rw miss (find-last key e m (rw miss at h))
]

emplace-keeps :
    (key name : String) (e x : SchemaEntry) (m : List (String × SchemaEntry))
    → find key m ≡ some e
    → find key (emplace name x m) ≡ some e
unfolding emplace
emplace-keeps key name e x m h = elim (Option-cases (find name m)) [
  | inl f ↦ rw (f, emplace) (find-append key e m ((name, x) ∷ []) h)
  | inr (y, f) ↦ rw (f, emplace) h
]

emplace-finds :
    (name : String) (x : SchemaEntry) (m : List (String × SchemaEntry))
    → (e : SchemaEntry) × (find name (emplace name x m) ≡ some e)
unfolding emplace
emplace-finds name x m = elim (Option-cases (find name m)) [
  | inl f ↦ (x, rw (f, emplace) (find-last name x m f))
  | inr (y, f) ↦ (y, rw (f, emplace) f)
]

module _ (lower : String → String) (W : Type 0) (get_schemas : W → Result (List Schema) × W) where
  -- Every schema has a name.
  abbrev pub AreNamed : List Schema → Type 0
  AreNamed = All (λ s. str_eq s.schema_name "" ≡ false)

  add_entry-named :
      (x : SchemaEntry) (s : SchemaSetState)
      → str_eq x.name "" ≡ false
      → add_entry lower W get_schemas x s
        ≡ (ok tt, record s { schemas = emplace (lower x.name) x s.schemas })
  unfolding add_entry
  add_entry-named x s h = rw (h, add_entry) refl

  -- After the entries are added, what was found is found, and so is each of them.
  add_entries-finds :
      (schemas : List Schema) (s : SchemaSetState)
      → AreNamed schemas
      → (m : List (String × SchemaEntry)) × (add_entries lower W get_schemas schemas s
          ≡ (ok tt, record s { schemas = m }))
        × ((key : String) (e : SchemaEntry) → find key s.schemas ≡ some e → find key m ≡ some e)
        × ((i : ℕ) (schema : Schema)
            → get_elem? schemas i ≡ some schema
            → (e : SchemaEntry) × (find (lower schema.schema_name) m ≡ some e))
  unfolding add_entries
  add_entries-finds [] s n = (s.schemas, refl, λ key e h. h, λ i schema h. cc)
  add_entries-finds (x ∷ xs) s n =
      let one = emplace (lower x.schema_name) (entry_of x) s.schemas in
      let (m, eq, keeps, finds) = add_entries-finds xs (record s { schemas = one }) n.1 in
      (
        m,
        rw (add_entry-named (entry_of x) s n.0, add_entries) eq,
        λ key e h. keeps key e (emplace-keeps key (lower x.schema_name) e (entry_of x) s.schemas h),
        λ i schema h. elem i schema m keeps finds h,
      )
    where
      elem :
          (i : ℕ) (schema : Schema) (m : List (String × SchemaEntry))
          → ((key : String) (e : SchemaEntry)
              → find key (emplace (lower x.schema_name) (entry_of x) s.schemas) ≡ some e
              → find key m ≡ some e)
          → ((i : ℕ) (schema : Schema)
              → get_elem? xs i ≡ some schema
              → (e : SchemaEntry) × (find (lower schema.schema_name) m ≡ some e))
          → get_elem? (x ∷ xs) i ≡ some schema
          → (e : SchemaEntry) × (find (lower schema.schema_name) m ≡ some e)
      elem zero schema m keeps finds h =
          let (e, f) = emplace-finds (lower x.schema_name) (entry_of x) s.schemas in
          let same : x ≡ schema = cc in
          (e, ap (λ z. find (lower z.schema_name) m) (sym same) ∙ keeps _ e f)
      elem (suc i) schema m keeps finds h = finds i schema h

  fresh-load :
      (s : SchemaSetState) (w : W)
      → s.is_loaded ≡ false
      → ensure_loaded lower W get_schemas (s, w) ≡ load lower W get_schemas s (get_schemas w)
  unfolding ensure_loaded
  fresh-load s w h = rw (h, ensure_loaded) refl

  ensure-loads :
      (schemas : List Schema) (m : List (String × SchemaEntry)) (s : SchemaSetState) (w w' : W)
      → s.is_loaded ≡ false
      → get_schemas w ≡ (ok schemas, w')
      → add_entries lower W get_schemas schemas s ≡ (ok tt, record s { schemas = m })
      → ensure_loaded lower W get_schemas (s, w)
        ≡ (ok tt, (record { schemas = m; is_loaded = true }, w'))
  unfolding load loaded
  ensure-loads schemas m s w w' fresh answer eq =
      fresh-load s w fresh
      ∙ ap (load lower W get_schemas s) answer
      ∙ ap (λ p. loaded lower W get_schemas p w') eq

  -- A lookup in a set that is not loaded, where the server lists schemas that all have a name, asks
  -- the server once, marks the set as loaded, keeps what the set had, and holds an entry for each
  -- listed schema; its answer is that of the loaded map.
  pub get_entry-loads :
      (name : String) (schemas : List Schema) (s : SchemaSetState) (w w' : W)
      → s.is_loaded ≡ false
      → get_schemas w ≡ (ok schemas, w')
      → AreNamed schemas
      → (m : List (String × SchemaEntry)) × (get_entry lower W get_schemas name (s, w)
          ≡ (ok (find (lower name) m), (record { schemas = m; is_loaded = true }, w')))
        × ((key : String) (e : SchemaEntry) → find key s.schemas ≡ some e → find key m ≡ some e)
        × ((i : ℕ) (schema : Schema)
            → get_elem? schemas i ≡ some schema
            → (e : SchemaEntry) × (find (lower schema.schema_name) m ≡ some e))
  unfolding get_entry
  get_entry-loads name schemas s w w' fresh answer n =
      let (m, eq, keeps, finds) = add_entries-finds schemas s n in
      let done = ensure-loads schemas m s w w' fresh answer eq in
      (
        m,
        ap (λ p. continue p.0 (λ u. λ l. (ok (find (lower name) l.0.schemas), l)) p.1) done,
        keeps,
        finds,
      )

  -- What may happen to a set between two calls of `ClearEntries`.
  pub data Step : Loading lower W get_schemas → Loading lower W get_schemas → Type 0 where
    gets :
        (name : String) (s : Loading lower W get_schemas)
        → Step s (get_entry lower W get_schemas name s).1
    scans : (s : Loading lower W get_schemas) → Step s (scan lower W get_schemas s).1
    creates :
        (x : SchemaEntry) (s : Loading lower W get_schemas)
        → Step s (create_entry lower W get_schemas x s).1

  pub data Steps : Loading lower W get_schemas → Loading lower W get_schemas → Type 0 where
    here : (s : Loading lower W get_schemas) → Steps s s
    then_step : (s u v : Loading lower W get_schemas) → Steps s u → Step u v → Steps s v

  -- Loaded, at the world `w`, with an entry under `key`.
  abbrev pub Holds : W → String → SchemaEntry → Loading lower W get_schemas → Type 0
  Holds w key e s = (s.0.is_loaded ≡ true) × (s.1 ≡ w) × (find key s.0.schemas ≡ some e)

  ensured :
      (s : Loading lower W get_schemas)
      → s.0.is_loaded ≡ true
      → ensure_loaded lower W get_schemas s ≡ (ok tt, s)
  unfolding ensure_loaded
  ensured (s, w) h = rw (h, ensure_loaded) refl

  create-Holds :
      (w : W) (key : String) (e x : SchemaEntry) (s : Loading lower W get_schemas)
      → Holds w key e s
      → Holds w key e (create_entry lower W get_schemas x s).1
  unfolding create_entry add_entry
  create-Holds w key e x (s, v) h = elim (Bool-cases (str_eq x.name "")) [
    | inl f ↦ rw (f, create_entry, add_entry) h
    | inr f ↦
        rw (f, create_entry, add_entry)
          (h.0, h.1, emplace-keeps key (lower x.name) e x s.schemas h.2)
  ]

  Step-Holds :
      (w : W) (key : String) (e : SchemaEntry) (s u : Loading lower W get_schemas)
      → Step s u
      → Holds w key e s
      → Holds w key e u
  unfolding get_entry scan
  Step-Holds w key e s u (gets name v) h = rw (ensured v h.0, get_entry) h
  Step-Holds w key e s u (scans v) h = rw (ensured v h.0, scan) h
  Step-Holds w key e s u (creates x v) h = create-Holds w key e x v h

  -- Once a set is loaded, no lookup, no scan and no creation of an entry asks the server again, until
  -- the set is cleared; and an entry that is there is neither lost nor replaced.
  pub loaded-Holds :
      (w : W) (key : String) (e : SchemaEntry) (s u : Loading lower W get_schemas)
      → Steps s u
      → Holds w key e s
      → Holds w key e u
  loaded-Holds w key e s u (here v) h = h
  loaded-Holds w key e s u (then_step a b c p q) h =
      Step-Holds w key e b c q (loaded-Holds w key e a b p h)
