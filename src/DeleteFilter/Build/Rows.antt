-- ===== src/DeleteFilter/Build/Rows.antt =====
-- The rows of a position delete file and the positions of a deletion vector, as
-- src/uc_multi_file_list.cpp adds them to a set.
use unity_catalog.Base.{
  ℕ, ◌^◌, ◌≡◌, refl, String, Option, none, some, List, [], ◌∷◌, ◌++◌, map, Bool, true, false, ◌&&◌,
  ◌||◌, not, str_eq, if◌then◌else◌, ltb, ℤ, pos, arith, Bool-cases, inl, inr,
}
use unity_catalog.Result.{Exception, ok, err, io, internal}
use unity_catalog.Puffin.Blob.{Checked}
use unity_catalog.DeleteFilter.{contains}
use unity_catalog.DeleteFilter.Build.{DataChunk, insert_rows, consume_chunks, insert_positions}

-- The positions that some rows list for a data file.
pub matching : String → List (String × ℤ) → List ℤ
matching path [] = []
matching path ((p, position) ∷ rows) =
    let rest = matching path rows in if str_eq p path then position ∷ rest else rest

pub all_rows : List DataChunk → List (String × ℤ)
all_rows [] = []
all_rows (c ∷ cs) = c.rows ++ all_rows cs

pub all_wide : List DataChunk → Bool
all_wide [] = true
all_wide (c ∷ cs) = not (ltb c.column_count 2) && all_wide cs

pub all_small : List ℕ → Bool
all_small [] = true
all_small (p ∷ ps) = ltb p (2 ^ 63) && all_small ps

-- A step that adds what `listed` names to `out`, or that throws where there is nothing to name.
pub data Adds (out : List ℤ) : Option (List ℤ) → Checked (List ℤ) → Type 0 where
  adds :
      (listed out' : List ℤ)
      → ((x : ℤ) → contains out' x ≡ (contains listed x || contains out x))
      → Adds out (some listed) (some (ok out'))
  fails : (e : Exception) → Adds out none (some (err e))

insert_rows-matching :
    (path : String) (rows : List (String × ℤ)) (out : List ℤ) (x : ℤ)
    → contains (insert_rows path rows out) x ≡ (contains (matching path rows) x || contains out x)
unfolding insert_rows matching contains
insert_rows-matching path [] out x = refl
insert_rows-matching path ((p, position) ∷ rows) out x = elim (Bool-cases (str_eq p path)) [
  | inl hit ↦ rw hit (ground (arith, insert_rows-matching path rows (position ∷ out) x))
  | inr miss ↦ rw miss (insert_rows-matching path rows out x)
]

matching-append :
    (path : String) (rows more : List (String × ℤ)) (x : ℤ)
    → contains (matching path (rows ++ more)) x
      ≡ (contains (matching path rows) x || contains (matching path more) x)
unfolding matching contains
matching-append path [] more x = refl
matching-append path ((p, position) ∷ rows) more x = elim (Bool-cases (str_eq p path)) [
  | inl hit ↦ rw hit (ground (arith, matching-append path rows more x))
  | inr miss ↦ rw miss (matching-append path rows more x)
]

pub consume-Adds :
    (path : String) (chunks : List DataChunk) (out : List ℤ)
    → Adds out
        (if all_wide chunks then some (matching path (all_rows chunks)) else none)
        (consume_chunks path chunks out)
unfolding consume_chunks all_wide all_rows matching contains
consume-Adds path [] out = adds [] out (λ x. refl)
consume-Adds path (c ∷ cs) out = elim (Bool-cases (ltb c.column_count 2)) [
  | inl narrow ↦ rw (narrow, consume_chunks) (fails io)
  | inr wide ↦
      rw (wide, consume_chunks)
        (widen (all_wide cs) (consume-Adds path cs (insert_rows path c.rows out)))
]
  where
    widen :
        (b : Bool) {m : Checked (List ℤ)}
        → Adds
            (insert_rows path c.rows out)
            (if b then some (matching path (all_rows cs)) else none)
            m
        → Adds out (if b then some (matching path (c.rows ++ all_rows cs)) else none) m
    widen false (fails e) = fails e
    widen true (adds listed out' h) = adds _ out' λ x. ground (
      arith,
      h x,
      insert_rows-matching path c.rows out x,
      matching-append path c.rows (all_rows cs) x,
    )

pub positions-Adds :
    (ps : List ℕ) (out : List ℤ)
    → Adds out (if all_small ps then some (map pos ps) else none) (insert_positions ps out)
unfolding insert_positions all_small contains
positions-Adds [] out = adds [] out (λ x. refl)
positions-Adds (p ∷ ps) out = elim (Bool-cases (ltb p (2 ^ 63))) [
  | inr large ↦ rw (large, insert_positions) (fails internal)
  | inl small ↦
      rw (small, insert_positions) (widen (all_small ps) (positions-Adds ps (pos p ∷ out)))
]
  where
    widen :
        (b : Bool) {m : Checked (List ℤ)}
        → Adds (pos p ∷ out) (if b then some (map pos ps) else none) m
        → Adds out (if b then some (pos p ∷ map pos ps) else none) m
    widen false (fails e) = fails e
    widen true (adds listed out' h) = adds _ out' λ x. ground (arith, h x)
