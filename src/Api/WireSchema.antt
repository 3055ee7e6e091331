-- ===== src/Api/WireSchema.antt =====
-- `WireSchemaKey`, `WireSchemaCopy` and `WireSchema` of src/uc_api.cpp: a Delta schema as a request
-- spells it.
pub mod Keys
pub mod Restore
use unity_catalog.Base.{
  String, Option, none, some, List, [], ◌∷◌, Bool, Text, str_eq, if◌then◌else◌,
}
use unity_catalog.Result.{Result, ok, err, invalid_input}

-- A JSON value; a text, a number, `true`, `false` or `null` is kept as it is written.
mutual
  pub data Members : Type 0 where
    end : Members
    field : String → Value → Members → Members

  pub data Elements : Type 0 where
    no_items : Elements
    item : Value → Elements → Elements

  pub data Value : Type 0 where
    obj : Members → Value
    arr : Elements → Value
    scalar : Text → Value

-- The map `RENAMED`.
abbrev renamed : List (String × String)
renamed =
    ("elementType", "element-type")
    ∷ ("containsNull", "contains-null")
    ∷ ("keyType", "key-type")
    ∷ ("valueType", "value-type")
    ∷ ("valueContainsNull", "value-contains-null")
    ∷ []

pub find_key : String → List (String × String) → String
find_key key [] = key
find_key key ((k, wire) ∷ rest) = if str_eq k key then wire else find_key key rest

pub wire_schema_key : String → String
unfolding find_key
wire_schema_key key = find_key key renamed

-- What the code calls of yyjson on documents.
pub record Documents : Type 0 where
  pub parse : Text → Option Value
  -- `yyjson_mut_doc_new` does not fail
  pub can_allocate : Bool
  -- `yyjson_mut_obj_put`
  pub put : Members → String → Value → Members
  pub write : Value → Option Text

module _ (documents : Documents) where
  open documents use {parse, can_allocate, put, write}

  mutual
    pub wire_schema_copy : Value → Value
    wire_schema_copy (obj fs) = obj (copy_fields end fs)
    wire_schema_copy (arr xs) = arr (copy_items xs)
    wire_schema_copy (scalar s) = scalar s

    pub copy_items : Elements → Elements
    copy_items no_items = no_items
    copy_items (item x xs) = item (wire_schema_copy x) (copy_items xs)

    pub copy_fields : Members → Members → Members
    copy_fields result end = result
    copy_fields result (field key child fs) =
        copy_fields (put result (wire_schema_key key) (wire_schema_copy child)) fs

  pub wire_schema : Text → Result Text
  unfolding wire_schema_copy
  wire_schema schema_json = elim (parse schema_json) [
    | none ↦ err invalid_input
    | some root ↦
        if can_allocate
        then elim (write (wire_schema_copy root)) [
          | none ↦ err invalid_input
          | some written ↦ ok written
        ]
        else err invalid_input
  ]
