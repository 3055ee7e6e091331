-- ===== src/Storage/Transaction/Stable.antt =====
-- The entries of a transaction (src/storage/uc_transaction.cpp) stay what they are.
use unity_catalog.Base.{
  String, ◌≡◌, refl, some, true, str_eq, eq_iff, Bool-cases, Option-cases, inl, inr,
}
use unity_catalog.Storage.Transaction.{
  Transaction, commit, rollback, find, get_table_entry, set_table_entry,
}

module _ (E : Type 0) where
  -- What may happen to a transaction.
  pub data Step : Transaction E → Transaction E → Type 0 where
    commits : (t : Transaction E) → Step t (commit E t)
    rolls_back : (t : Transaction E) → Step t (rollback E t)
    sets : (name : String) (e : E) (t : Transaction E) → Step t (set_table_entry E name e t).1

  pub data Steps : Transaction E → Transaction E → Type 0 where
    here : (t : Transaction E) → Steps t t
    then_step : (t u v : Transaction E) → Steps t u → Step u v → Steps t v

  set-keeps :
      (name key : String) (e stored : E) (t : Transaction E)
      → get_table_entry E key t ≡ some stored
      → get_table_entry E key (set_table_entry E name e t).1 ≡ some stored
  unfolding get_table_entry set_table_entry find
  set-keeps name key e stored t h = elim (Option-cases (find E name t.table_entries)) [
    | inr (x, f) ↦ rw (f, set_table_entry) h
    | inl f ↦
        rw (f, set_table_entry)
          (elim (Bool-cases (str_eq name key)) [
            | inl same ↦ let e : name ≡ key = (eq_iff name key).0 same in cc
            | inr other ↦ rw other h
          ])
  ]

  Step-keeps :
      (key : String) (stored : E) (t u : Transaction E)
      → Step t u
      → get_table_entry E key t ≡ some stored
      → get_table_entry E key u ≡ some stored
  unfolding get_table_entry commit rollback
  Step-keeps key stored t u (commits s) h = h
  Step-keeps key stored t u (rolls_back s) h = h
  Step-keeps key stored t u (sets name e s) h = set-keeps name key e stored s h

  pub Steps-keep :
      (key : String) (stored : E) (t u : Transaction E)
      → Steps t u
      → get_table_entry E key t ≡ some stored
      → get_table_entry E key u ≡ some stored
  Steps-keep key stored t u (here s) h = h
  Steps-keep key stored t u (then_step a b c p q) h =
      Step-keeps key stored b c q (Steps-keep key stored a b p h)

  pub set-get :
      (key : String) (e : E) (t : Transaction E)
      → get_table_entry E key (set_table_entry E key e t).1 ≡ some (set_table_entry E key e t).0
  unfolding get_table_entry set_table_entry find
  set-get key e t = elim (Option-cases (find E key t.table_entries)) [
    | inr (x, f) ↦ rw (f, set_table_entry) f
    | inl f ↦
        let same : str_eq key key ≡ true = (eq_iff key key).1 refl in
        rw (f, set_table_entry) (rw same refl)
  ]

  kept :
      (key : String) (other : E) (u : Transaction E) (stored : E)
      → get_table_entry E key u ≡ some stored
      → (set_table_entry E key other u).0 ≡ stored
  unfolding get_table_entry set_table_entry
  kept key other u stored h = rw (h, set_table_entry) refl

  -- The entry that a call of `SetTableEntry` returns is what every later `GetTableEntry` of that name
  -- finds and every later `SetTableEntry` of that name returns, whatever else is done with the
  -- transaction in between: no stored entry is ever replaced.
  pub set_table_entry-stable :
      (key : String) (e other : E) (t u : Transaction E)
      → Steps (set_table_entry E key e t).1 u
      → (get_table_entry E key u ≡ some (set_table_entry E key e t).0)
        × ((set_table_entry E key other u).0 ≡ (set_table_entry E key e t).0)
  unfolding get_table_entry set_table_entry
  set_table_entry-stable key e other t u s =
      let found = Steps-keep key _ _ u s (set-get key e t) in (found, kept key other u _ found)
