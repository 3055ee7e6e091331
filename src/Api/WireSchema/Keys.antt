-- ===== src/Api/WireSchema/Keys.antt =====
-- The renaming of keys of src/uc_api.cpp can be undone on the keys of a Delta log.
use unity_catalog.Base.{
  ◌≡◌, refl, sym, subst, ◌∙◌, ap, String, List, [], ◌∷◌, Bool, true, false, ◌||◌, str_eq,
  if◌then◌else◌, eq_iff, Bool-cases, inl, inr, arith,
}
use unity_catalog.Api.WireSchema.{wire_schema_key}

-- The names that a request has for keys of a Delta schema, each with the key in the log.
abbrev wire_names : List (String × String)
wire_names =
    ("element-type", "elementType")
    ∷ ("contains-null", "containsNull")
    ∷ ("key-type", "keyType")
    ∷ ("value-type", "valueType")
    ∷ ("value-contains-null", "valueContainsNull")
    ∷ []

abbrev log_name : String → List (String × String) → String
log_name key [] = key
log_name key ((wire, k) ∷ rest) = if str_eq wire key then k else log_name key rest

-- The name in the log of a key of a request.
pub log_key : String → String
log_key key = log_name key wire_names

-- One of the five names with a dash.
abbrev is_among : String → List (String × String) → Bool
is_among key [] = false
is_among key ((wire, k) ∷ rest) = str_eq wire key || is_among key rest

unfoldable pub is_wire_key : String → Bool
is_wire_key key = is_among key wire_names

abbrev Returns : String → Type 0
Returns key = log_key (wire_schema_key key) ≡ key

hit : (k key : String) → Returns k → str_eq k key ≡ true → Returns key
hit k key r e = subst Returns ((eq_iff k key).0 e) r

pub log_key-wire_schema_key :
    (key : String) → is_wire_key key ≡ false → log_key (wire_schema_key key) ≡ key
unfolding log_key wire_schema_key is_wire_key
log_key-wire_schema_key key h = elim (Bool-cases (str_eq "elementType" key)) [
  | inl e ↦ hit "elementType" key refl e
  | inr m0 ↦ elim (Bool-cases (str_eq "containsNull" key)) [
    | inl e ↦ hit "containsNull" key refl e
    | inr m1 ↦ elim (Bool-cases (str_eq "keyType" key)) [
      | inl e ↦ hit "keyType" key refl e
      | inr m2 ↦ elim (Bool-cases (str_eq "valueType" key)) [
        | inl e ↦ hit "valueType" key refl e
        | inr m3 ↦ elim (Bool-cases (str_eq "valueContainsNull" key)) [
          | inl e ↦ hit "valueContainsNull" key refl e
          | inr m4 ↦ rw (m0, m1, m2, m3, m4, log_key, wire_schema_key) (ground arith)
        ]
      ]
    ]
  ]
]

pub wire_schema_key-injective :
    (j k : String)
    → is_wire_key j ≡ false
    → is_wire_key k ≡ false
    → wire_schema_key j ≡ wire_schema_key k
    → j ≡ k
wire_schema_key-injective j k hj hk e =
    sym (log_key-wire_schema_key j hj) ∙ ap log_key e ∙ log_key-wire_schema_key k hk
