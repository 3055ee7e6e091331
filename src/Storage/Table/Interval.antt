-- ===== src/Storage/Table/Interval.antt =====
-- `TypeTextHasInterval` of src/storage/uc_table_set.cpp finds an interval wherever it stands.
use unity_catalog.Base.{
  ℕ, zero, suc, ◌+◌, ◌≤◌, ◌<◌, ◌≡◌, refl, sym, none, some, List, [], ◌∷◌, Bool, true, false, ◌&&◌,
  ◌||◌, if◌then◌else◌, Text, starts_with, drop, length, arith, Bool-cases, Option-cases, inl, inr,
}
use unity_catalog.Result.{ok, err, not_implemented}
use unity_catalog.Api.Data.{Column}
use unity_catalog.Storage.Table.{
  interval, units, find_interval, starts_with_unit, interval_loop, type_text_has_interval,
  throw_if_interval_columns,
}

-- An interval type with a unit begins here.
abbrev pub interval_here : Text → Bool
interval_here s = starts_with s interval && starts_with_unit units (drop 9 s)

-- An interval type with a unit begins somewhere.
pub mentions_interval : Text → Bool
mentions_interval [] = false
mentions_interval (c ∷ s) = interval_here (c ∷ s) || mentions_interval s

-- What a search that succeeds says of the text.
record Found (text found : Text) : Type 0 where
  head : ℕ
  tail : Text
  is_cons : found ≡ head ∷ tail
  begins : starts_with (head ∷ tail) interval ≡ true
  bound : length (head ∷ tail) ≤ length text
  same : mentions_interval text ≡ mentions_interval (head ∷ tail)

find-Found : (text found : Text) → find_interval text ≡ some found → Found text found
unfolding find_interval mentions_interval
find-Found [] found h = cc
find-Found (c ∷ s) found h = elim (Bool-cases (starts_with (c ∷ s) interval)) [
  | inl e ↦
      let whole : some (c ∷ s) ≡ some found = rw e at h in
      record { head = c; tail = s; is_cons = cc; begins = e; bound = omega arith; same = refl }
  | inr e ↦
      let f = find-Found s found (rw e at h) in
      record {
        head = f.head;
        tail = f.tail;
        is_cons = f.is_cons;
        begins = f.begins;
        bound = omega (arith, f.bound);
        same = rw e f.same;
      }
]

find-none : (text : Text) → find_interval text ≡ none → mentions_interval text ≡ false
unfolding find_interval mentions_interval
find-none [] h = refl
find-none (c ∷ s) h = elim (Bool-cases (starts_with (c ∷ s) interval)) [
  | inl e ↦ let whole : some (c ∷ s) ≡ none = rw e at h in cc
  | inr e ↦ rw e (find-none s (rw e at h))
]

loop-mentions :
    (fuel : ℕ) (text : Text) → length text < fuel → interval_loop fuel text ≡ mentions_interval text
unfolding interval_loop
loop-mentions zero text h = absurd (omega arith)
loop-mentions (suc fuel) text h = elim (Option-cases (find_interval text)) [
  | inl e ↦ rw (e, interval_loop) (sym (find-none text e))
  | inr (found, e) ↦
      let f = find-Found text found e in
      rw (e, interval_loop, f.is_cons, f.same)
        (step f.head f.tail f.begins (loop-mentions fuel f.tail (omega (arith, f.bound))))
]
  where
    step :
        (c : ℕ) (s : Text)
        → starts_with (c ∷ s) interval ≡ true
        → interval_loop fuel s ≡ mentions_interval s
        → (starts_with_unit units (drop 9 (c ∷ s)) || interval_loop fuel s)
          ≡ mentions_interval (c ∷ s)
    step c s b ih = unfold mentions_interval in rw (b, ih) refl

pub any_interval : (Text → Text) → List Column → Bool
any_interval lower [] = false
any_interval lower (c ∷ cs) = mentions_interval (lower c.type_text) || any_interval lower cs

-- A table is refused exactly if the text of some column's type, in lower case, has "interval " with
-- a unit behind it, at whichever place; the fuel of the search is enough.
pub throw_if_interval_columns-any :
    (lower : Text → Text) (cs : List Column)
    → throw_if_interval_columns lower cs
      ≡ (if any_interval lower cs then err not_implemented else ok tt)
unfolding throw_if_interval_columns type_text_has_interval any_interval
throw_if_interval_columns-any lower [] = refl
throw_if_interval_columns-any lower (c ∷ cs) =
    rw (loop-mentions (length (lower c.type_text) + 1) (lower c.type_text) (omega arith))
      (elim (Bool-cases (mentions_interval (lower c.type_text))) [
        | inl h ↦ rw h refl
        | inr h ↦ rw h (throw_if_interval_columns-any lower cs)
      ])
