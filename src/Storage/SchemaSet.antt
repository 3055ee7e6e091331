-- ===== src/Storage/SchemaSet.antt =====
-- src/storage/uc_schema_set.cpp: the schemas of a catalog, loaded from the server once.
pub mod Load
use unity_catalog.Base.{
  String, Option, none, some, List, [], ◌∷◌, ◌++◌, Bool, true, false, str_eq, if◌then◌else◌,
}
use unity_catalog.Result.{Result, ok, err, internal, not_implemented}
use unity_catalog.Api.Data.{Schema}
use unity_catalog.Result.Exec.{Exec, pure, throw, ◌>>◌, ◌>>=◌}

-- `UCSchemaEntry`, by what is told apart.
pub record SchemaEntry : Type 0 where
  pub name : String
  pub is_internal : Bool
  pub schema_data : Schema

-- `SchemaSetState`, with the map's keys in lower case.
pub record SchemaSetState : Type 0 where
  pub schemas : List (String × SchemaEntry)
  pub is_loaded : Bool

-- `IsInternalTable`
pub is_internal_table : String → String → Bool
is_internal_table catalog schema = str_eq schema "information_schema"

-- `LookupEntry` in the map; `emplace` keeps what is stored under the key.
unfoldable pub find : String → List (String × SchemaEntry) → Option SchemaEntry
find key [] = none
find key ((k, e) ∷ m) = if str_eq k key then some e else find key m

pub emplace : String → SchemaEntry → List (String × SchemaEntry) → List (String × SchemaEntry)
unfolding find
emplace key e m = elim (find key m) [ none ↦ m ++ (key, e) ∷ [] | some x ↦ m ]

abbrev pub entry_of : Schema → SchemaEntry
entry_of schema = record {
  name = schema.schema_name;
  is_internal = is_internal_table schema.catalog_name schema.schema_name;
  schema_data = schema;
}

-- `lower` makes the map's key of an `Identifier`; `W` is the world that `UCAPI::GetSchemas` reads.
module _ (lower : String → String) (W : Type 0) (get_schemas : W → Result (List Schema) × W) where
  -- `AddEntry`
  pub add_entry : SchemaEntry → Exec SchemaSetState (Unit {0})
  add_entry entry s =
      if str_eq entry.name ""
      then (err internal, s)
      else (ok tt, record s { schemas = emplace (lower entry.name) entry s.schemas })

  pub add_entries : List Schema → Exec SchemaSetState (Unit {0})
  add_entries [] s = (ok tt, s)
  add_entries (schema ∷ rest) s = (add_entry (entry_of schema) >> add_entries rest) s

  abbrev pub Loading : Type 0
  Loading = SchemaSetState × W

  -- What the loaded schemas do to the state, and the flag behind them.
  loaded : Result (Unit {0}) × SchemaSetState → W → Result (Unit {0}) × Loading
  loaded (err e, s) w = (err e, (s, w))
  loaded (ok u, s) w = (ok tt, (record s { is_loaded = true }, w))

  load : SchemaSetState → Result (List Schema) × W → Result (Unit {0}) × Loading
  unfolding loaded
  load s (err e, w) = (err e, (s, w))
  load s (ok schemas, w) = loaded (add_entries schemas s) w

  pub ensure_loaded : Exec Loading (Unit {0})
  unfolding load
  ensure_loaded (s, w) = if s.is_loaded then (ok tt, (s, w)) else load s (get_schemas w)

  -- `GetEntry`; `none` is a null pointer.
  pub get_entry : String → Exec Loading (Option SchemaEntry)
  unfolding ensure_loaded
  get_entry name = ensure_loaded >>= λ u. λ s. (ok (find (lower name) s.0.schemas), s)

  -- `Scan`, as the entries that the callback sees.
  pub scan : Exec Loading (List (String × SchemaEntry))
  unfolding ensure_loaded
  scan = ensure_loaded >>= λ u. λ s. (ok s.0.schemas, s)

  pub create_entry : SchemaEntry → Exec Loading (Unit {0})
  unfolding add_entry
  create_entry entry (s, w) = let (r, s') = add_entry entry s in (r, (s', w))

  pub clear_entries : Loading → Loading
  clear_entries (s, w) = (record { schemas = []; is_loaded = false }, w)
