-- ===== src/Storage/Transaction.antt =====
-- src/storage/uc_transaction.cpp.
pub mod Stable
use unity_catalog.Base.{
  String, Option, none, some, List, [], ◌∷◌, ℕ, ◌+◌, str_eq, if◌then◌else◌, ◌==◌,
}

pub data TransactionState : Type 0 where
  not_yet_started started finished : TransactionState

-- `E` is a catalog entry; a `unique_ptr` to one is the entry itself, and no null pointer is stored.
module _ (E : Type 0) where
  pub record Transaction : Type 0 where
    pub table_entries : List (String × E)
    pub transaction_state : TransactionState

  -- The constructor, then `Start`.
  unfoldable pub start : Transaction
  start = record { table_entries = []; transaction_state = not_yet_started }

  abbrev finish : TransactionState → TransactionState
  finish started = finished
  finish not_yet_started = not_yet_started
  finish finished = finished

  pub commit : Transaction → Transaction
  commit t = record t { transaction_state = finish t.transaction_state }

  pub rollback : Transaction → Transaction
  rollback t = record t { transaction_state = finish t.transaction_state }

  unfoldable pub find : String → List (String × E) → Option E
  find name [] = none
  find name ((k, e) ∷ entries) = if str_eq k name then some e else find name entries

  unfoldable pub get_table_entry : String → Transaction → Option E
  unfolding find
  get_table_entry qualified_name t = find qualified_name t.table_entries

  -- The entry that is stored already, or else the one that is given, which then is stored.
  unfoldable pub set_table_entry : String → E → Transaction → E × Transaction
  unfolding find
  set_table_entry qualified_name entry t = elim (find qualified_name t.table_entries) [
    | some stored ↦ (stored, t)
    | none ↦ (entry, record t { table_entries = (qualified_name, entry) ∷ t.table_entries })
  ]
