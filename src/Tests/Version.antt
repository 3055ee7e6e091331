-- ===== src/Tests/Version.antt =====
-- The theorem on the versions of a table at a concrete input.
use unity_catalog.Base.{starts_with, lit, ℕ, ℤ, String, ◌≡◌, refl, none, some, false}
use unity_catalog.Result.{ok}
use unity_catalog.Storage.Attach.{refresh_credentials, internal_attach}
use unity_catalog.Storage.Gate.{unknown}
use unity_catalog.Storage.Table.{throw_if_interval_columns, is_catalog_managed}
use unity_catalog.Storage.Transaction.{start, get_table_entry, set_table_entry}
use unity_catalog.Storage.Transaction.Stable.{here}
use unity_catalog.Storage.Version.{
  VersionEnvironment, VersionState, at_version, entry_key, get_version, resolve_entry, bound_or,
  versioned, store, entry_from_delta_log,
}
use unity_catalog.Storage.Version.Bound.{get_version-again}
use unity_catalog.Tests.Attach.{counted, orders, sales, attached_at}

-- The current version of `orders@1` and version 1 of `orders` have one key.
keys_collide :
    (decimal : ℕ → String) (milliseconds : ℤ → String)
    → decimal 1 ≡ "1"
    → entry_key decimal milliseconds "s" "orders@1" none
      ≡ entry_key decimal milliseconds "s" "orders" (some (at_version 1))
unfolding entry_key
keys_collide decimal milliseconds h = rw h refl

-- A catalog entry is a number.
abbrev found : VersionEnvironment counted ℕ
found = record {
  now = λ w. 0;
  lookup_entry = λ at w. (ok (some 7), w);
  show_version = λ v. "1";
  show_timestamp = λ ms. "0";
  lower = λ text. text;
}

abbrev fresh : VersionState counted (sales false) orders ℕ found none false
fresh = record {
  table = attached_at false;
  transaction = start ℕ;
  gate = record {
    use_irc_scan_plan = false;
    scan_plan_state = unknown;
    scan_plan_unavailable_since = 0;
  };
}

abbrev first : VersionState counted (sales false) orders ℕ found none false
first = (get_version counted (sales false) orders ℕ found none false (some (at_version 1)) fresh).1

first_returns :
    (get_version counted (sales false) orders ℕ found none false (some (at_version 1)) fresh).0
    ≡ ok 7
unfolding get_version resolve_entry bound_or versioned store entry_from_delta_log
    throw_if_interval_columns entry_key get_table_entry start refresh_credentials starts_with lit
    internal_attach is_catalog_managed set_table_entry
first_returns = refl

get_version-again_example :
    get_version counted (sales false) orders ℕ found none false (some (at_version 1)) first
    ≡ (ok 7, first)
get_version-again_example =
    get_version-again counted (sales false) orders ℕ found none false (at_version 1) 7 fresh first
      first_returns (here first.transaction)
