-- ===== src/Json.antt =====
-- What the code calls of the yyjson library. A `yyjson_val *` is an `Option Val`, NULL being `none`;
-- the accessors answer on NULL and on a value of another kind as yyjson documents, so a field of
-- this record is asked only about a value.
use unity_catalog.Base.{
  ℕ, String, Option, none, some, List, [], Bool, true, false, Text, ℤ, pos, if◌then◌else◌,
}

pub data Kind : Type 0 where
  null bool num str arr obj : Kind

pub record Yyjson : Type 1 where
  pub Val : Type 0
  -- `yyjson_read` and `yyjson_doc_get_root`
  pub read : Text → Option Val
  pub kind : Val → Kind
  -- `yyjson_is_int`: a number with no fraction and no exponent
  pub is_int : Val → Bool
  pub obj_get : Val → String → Option Val
  pub get_str : Val → Option String
  pub get_uint : Val → ℕ
  pub get_sint : Val → ℤ
  -- what `yyjson_arr_foreach` and `yyjson_obj_foreach` visit, in order
  pub items : Val → List Val
  pub fields : Val → List (String × Val)

module _ (json : Yyjson) where
  open json use {Val, obj_get, get_str, get_uint, get_sint, items, fields}

  -- The same calls on a pointer that may be NULL.
  abbrev pub get? : Option Val → String → Option Val
  get? none key = none
  get? (some v) key = obj_get v key

  abbrev pub items? : Option Val → List Val
  items? none = []
  items? (some v) = items v

  abbrev pub fields? : Option Val → List (String × Val)
  fields? none = []
  fields? (some v) = fields v

  abbrev pub sint? : Option Val → ℤ
  sint? none = pos 0
  sint? (some v) = get_sint v

  abbrev pub is : Kind → Val → Bool
  is null v = elim (json.kind v) [ null ↦ true | _ ↦ false ]
  is bool v = elim (json.kind v) [ bool ↦ true | _ ↦ false ]
  is num v = elim (json.kind v) [ num ↦ true | _ ↦ false ]
  is str v = elim (json.kind v) [ str ↦ true | _ ↦ false ]
  is arr v = elim (json.kind v) [ arr ↦ true | _ ↦ false ]
  is obj v = elim (json.kind v) [ obj ↦ true | _ ↦ false ]

  -- `v && yyjson_is_str(v)`, with the text; likewise for the other kinds.
  abbrev pub str? : Option Val → Option String
  str? none = none
  str? (some v) = if is str v then get_str v else none

  abbrev pub arr? : Option Val → Option Val
  arr? none = none
  arr? (some v) = if is arr v then some v else none

  abbrev pub obj? : Option Val → Option Val
  obj? none = none
  obj? (some v) = if is obj v then some v else none
