-- ===== src/Api/WireSchema/Restore.antt =====
-- A schema as a request spells it (`WireSchemaCopy` of src/uc_api.cpp) is the schema of the log.
use unity_catalog.Base.{◌≡◌, ◌≢◌, refl, sym, ap, ◌∙◌, String, false}
use unity_catalog.Api.WireSchema.{
  Value, scalar, arr, obj, Elements, no_items, item, Members, end, field, wire_schema_key,
  Documents, wire_schema_copy, copy_items, copy_fields,
}
use unity_catalog.Api.WireSchema.Keys.{
  log_key, is_wire_key, log_key-wire_schema_key, wire_schema_key-injective,
}

-- Every key passes through `f`, at every depth; nothing else changes.
unfoldable mutual
  pub rename : (String → String) → Value → Value
  rename f (scalar s) = scalar s
  rename f (arr xs) = arr (rename_items f xs)
  rename f (obj fs) = obj (rename_fields f fs)

  pub rename_items : (String → String) → Elements → Elements
  rename_items f no_items = no_items
  rename_items f (item x xs) = item (rename f x) (rename_items f xs)

  pub rename_fields : (String → String) → Members → Members
  rename_fields f end = end
  rename_fields f (field k v fs) = field (f k) (rename f v) (rename_fields f fs)

-- No field has this key.
abbrev pub Lacks : String → Members → Type 0
Lacks key end = Unit
Lacks key (field k v fs) = (k ≢ key) × Lacks key fs

-- A schema as the log spells it: the keys of an object differ, and none is a dashed one.
unfoldable mutual
  pub IsLogSpelled : Value → Type 0
  IsLogSpelled (scalar s) = Unit
  IsLogSpelled (arr xs) = AllLogSpelled xs
  IsLogSpelled (obj fs) = HasLogFields fs

  pub AllLogSpelled : Elements → Type 0
  AllLogSpelled no_items = Unit
  AllLogSpelled (item x xs) = IsLogSpelled x × AllLogSpelled xs

  pub HasLogFields : Members → Type 0
  HasLogFields end = Unit
  HasLogFields (field k v fs) =
      (is_wire_key k ≡ false) × Lacks k fs × IsLogSpelled v × HasLogFields fs

-- Field by field behind what is there.
pub append : Members → Members → Members
append end gs = gs
append (field k v fs) gs = field k v (append fs gs)

append-end : (fs : Members) → append fs end ≡ fs
unfolding append
append-end end = refl
append-end (field k v fs) = ap (field k v) (append-end fs)

append_assoc : (fs gs hs : Members) → append (append fs gs) hs ≡ append fs (append gs hs)
unfolding append
append_assoc end gs hs = refl
append_assoc (field k v fs) gs hs = ap (field k v) (append_assoc fs gs hs)

Lacks-append :
    (key : String) (fs gs : Members) → Lacks key fs → Lacks key gs → Lacks key (append fs gs)
unfolding append
Lacks-append key end gs h k = k
Lacks-append key (field j v fs) gs h k = (h.0, Lacks-append key fs gs h.1 k)

-- The fields still to be copied get keys that the result lacks.
Apart : Members → Members → Type 0
Apart result end = Unit
Apart result (field k v fs) = Lacks (wire_schema_key k) result × Apart result fs

Apart-append :
    (result : Members) (k : String) (v : Value) (fs : Members)
    → is_wire_key k ≡ false
    → Lacks k fs
    → HasLogFields fs
    → Apart result fs
    → Apart (append result (field (wire_schema_key k) v end)) fs
unfolding Apart IsLogSpelled
Apart-append result k v end h l s a = tt
Apart-append result k v (field j w fs) h l s a = (
  Lacks-append (wire_schema_key j) result (field (wire_schema_key k) v end) a.0
      ((λ e. l.0 (sym (wire_schema_key-injective k j h s.0 e))), tt),
  Apart-append result k v fs h l.1 s.3 a.1,
)

Apart-end : (fs : Members) → Apart end fs
unfolding Apart
Apart-end end = tt
Apart-end (field k v fs) = (tt, Apart-end fs)

-- The documented behaviour of `yyjson_mut_obj_put` for a key that is not there.
abbrev pub PutsNew : Documents → Type 0
PutsNew documents =
    (fs : Members) (key : String) (v : Value)
    → Lacks key fs
    → documents.put fs key v ≡ append fs (field key v end)

module _ (documents : Documents) (puts : PutsNew documents) where
  mutual
    unfolding wire_schema_copy rename IsLogSpelled append Apart

    copy-renames :
        (v : Value) → IsLogSpelled v → wire_schema_copy documents v ≡ rename wire_schema_key v
    copy-renames (scalar s) h = refl
    copy-renames (arr xs) h = ap arr (copy_items-renames xs h)
    copy-renames (obj fs) h = ap obj (copy_fields-renames fs end h (Apart-end fs))

    copy_items-renames :
        (xs : Elements)
        → AllLogSpelled xs
        → copy_items documents xs ≡ rename_items wire_schema_key xs
    copy_items-renames no_items h = refl
    copy_items-renames (item x xs) h = rw (copy-renames x h.0, copy_items-renames xs h.1)

    copy_fields-renames :
        (fs result : Members)
        → HasLogFields fs
        → Apart result fs
        → copy_fields documents result fs ≡ append result (rename_fields wire_schema_key fs)
    copy_fields-renames end result h a = sym (append-end result)
    copy_fields-renames (field k v fs) result h a =
        let wire = wire_schema_key k in
        let result' = append result (field wire (rename wire_schema_key v) end) in
        rw (copy-renames v h.2, puts result wire (rename wire_schema_key v) a.0)
          (copy_fields-renames fs result' h.3
              (Apart-append result k (rename wire_schema_key v) fs h.0 h.1 h.3 a.1)
            ∙ append_assoc result (field wire (rename wire_schema_key v) end)
                (rename_fields wire_schema_key fs))

mutual
  unfolding rename IsLogSpelled

  restores : (v : Value) → IsLogSpelled v → rename log_key (rename wire_schema_key v) ≡ v
  restores (scalar s) h = refl
  restores (arr xs) h = ap arr (restores_items xs h)
  restores (obj fs) h = ap obj (restores_fields fs h)

  restores_items :
      (xs : Elements)
      → AllLogSpelled xs
      → rename_items log_key (rename_items wire_schema_key xs) ≡ xs
  restores_items no_items h = refl
  restores_items (item x xs) h = rw (restores x h.0, restores_items xs h.1)

  restores_fields :
      (fs : Members)
      → HasLogFields fs
      → rename_fields log_key (rename_fields wire_schema_key fs) ≡ fs
  restores_fields end h = refl
  restores_fields (field k v fs) h =
      rw (log_key-wire_schema_key k h.0, restores v h.2, restores_fields fs h.3)
