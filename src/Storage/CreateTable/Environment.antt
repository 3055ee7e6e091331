-- ===== src/Storage/CreateTable/Environment.antt =====
-- What the creation of a table calls, on a world `W`: the server's calls (`Api`), and DuckDB's
-- databases, secrets and files. The state keeps the calls that were made, newest first.
pub mod Keeps
use unity_catalog.Base.{String, Option, List, [], ◌∷◌, Bool, Text}
use unity_catalog.Result.{Result, ok, err}
use unity_catalog.Result.Exec.{Exec}
use unity_catalog.Api.Data.{
  TableName, TableCredentials, CommitsResult, StagingTable, CommittedTable,
}

-- A value of an option of the statement: an expression that is still to be evaluated, or a text.
pub data OptionValue : Type 0 where
  expression : String → OptionValue
  constant : Text → OptionValue

abbrev pub Options : Type 0
Options = List (String × OptionValue)

-- `AttachInfo`
pub record AttachInfo : Type 0 where
  pub name : String
  pub path : Text
  pub options : List (String × String)

-- `CreateSecretInput`, by the fields that differ between tables.
pub record Secret : Type 0 where
  pub name : String
  pub credentials : TableCredentials
  pub region : String
  pub scope : Text

pub data Event : Type 0 where
  -- `AttachDatabase` that returned, and `DetachDatabase`, whether it returned or not
  attached detached : String → Event
  -- a file is asked to be removed
  removed : Text → Event
  -- a table is registered with the server
  registered : String → Event
  -- any other call
  other : Event

pub record Environment : Type 1 where
  pub W : Type 0
  -- `UCAPI`, with the catalog's credentials
  pub create_staging_table : TableName → W → Result StagingTable × W
  pub get_staging_table_credentials : String → W → Result TableCredentials × W
  pub create_table : TableName → CommittedTable → String → W → Result (Unit {0}) × W
  pub table_exists : TableName → W → Result Bool × W
  pub load_table : TableName → W → Result CommitsResult × W
  -- DuckDB
  pub create_secret : Secret → W → Result (Unit {0}) × W
  -- the `location` option bound, evaluated and cast to a text; `none` is NULL
  pub evaluate : OptionValue → W → Result (Option Text) × W
  pub new_uuid : W → Result String × W
  pub attach : AttachInfo → W → Result (Unit {0}) × W
  pub detach : String → W → Result (Unit {0}) × W
  -- the schema's `CreateTable` of the Delta catalog that is attached, with the statement's options
  pub create_delta_table : String → Options → W → Result (Unit {0}) × W
  -- the text of version 0 of the log at a location
  pub read_version_zero : Text → W → Result Text × W
  -- the files of version 0 there
  pub glob_version_zero : Text → W → Result (List Text) × W
  pub remove_file : Text → W → Result (Unit {0}) × W

module _ (env : Environment) where
  pub record Run : Type 0 where
    pub world : env.W
    pub events : List Event

  module _ {A : Type 0} where
    -- A call, noted under an event whether it returns or throws.
    unfoldable pub call : Event → (env.W → Result A × env.W) → Exec Run A
    call event op s =
        let (r, w) = op s.world in (r, record { world = w; events = event ∷ s.events })

    -- A call, noted only where it returns.
    unfoldable pub call_ok : Event → (env.W → Result A × env.W) → Exec Run A
    call_ok event op s = elim (op s.world).0 [
      | ok a ↦ (ok a, record { world = (op s.world).1; events = event ∷ s.events })
      | err e ↦ (err e, record { world = (op s.world).1; events = s.events })
    ]
