-- ===== src/Storage/CreateTable/Options/Priority.antt =====
-- What stands under a key among the options of a managed table (src/storage/uc_table_set.cpp).
use Prim.Native.String.{◌++◌ as ◌<>◌}
use unity_catalog.Base.{
  ◌≡◌, refl, String, List, [], ◌∷◌, str_eq, eq_iff, ◌&&◌, if◌then◌else◌, lit, Option, none, some,
  arith, Bool-cases, inl, inr,
}
use unity_catalog.Api.Data.{StagingTable}
use unity_catalog.Storage.CreateTable.Environment.{Options, OptionValue, constant}
use unity_catalog.Storage.CreateTable.Options.{
  creatable_delta_property, set_option, find_option, set_suggested, set_required, set_features,
  managed_options,
}

-- The first of two answers.
abbrev pub or_next : Option OptionValue → Option OptionValue → Option OptionValue
or_next none b = b
or_next (some v) b = some v

module _ (lower : String → String) (key : String) where
  -- The last value that a list has for the key.
  abbrev pub last_value : List (String × String) → Option OptionValue
  last_value [] = none
  last_value ((k, v) ∷ rest) =
      or_next (last_value rest)
        (if str_eq (lower k) (lower key) then some (constant (lit v)) else none)

  -- The same among the suggestions that can be taken.
  abbrev pub last_creatable : List (String × String) → Option OptionValue
  last_creatable [] = none
  last_creatable ((k, v) ∷ rest) = or_next (last_creatable rest) (
      if creatable_delta_property k && str_eq (lower k) (lower key)
      then some (constant (lit v))
      else none)

  -- `supported` where the key asks for one of the features.
  abbrev pub asked_feature : List String → Option OptionValue
  asked_feature [] = none
  asked_feature (f ∷ rest) = or_next (asked_feature rest) (
      if str_eq (lower ("delta.feature." <> f)) (lower key)
      then some (constant (lit "supported"))
      else none)

  find-set :
      (k : String) (v : OptionValue) (options : Options)
      → find_option lower key (set_option lower k v options)
        ≡ or_next
            (if str_eq (lower k) (lower key) then some v else none)
            (find_option lower key options)
  unfolding find_option set_option
  find-set k v [] = ground arith
  find-set k v ((j, w) ∷ rest) = ground (
    arith,
    eq_iff (lower j) (lower k),
    eq_iff (lower j) (lower key),
    eq_iff (lower k) (lower key),
    find-set k v rest,
  )

  or_next_assoc : (a b c : Option OptionValue) → or_next (or_next a b) c ≡ or_next a (or_next b c)
  or_next_assoc none b c = refl
  or_next_assoc (some v) b c = refl

  find-suggested :
      (ps : List (String × String)) (options : Options)
      → find_option lower key (set_suggested lower ps options)
        ≡ or_next (last_creatable ps) (find_option lower key options)
  unfolding set_suggested
  find-suggested [] options = refl
  find-suggested ((k, v) ∷ rest) options = elim (Bool-cases (creatable_delta_property k)) [
    | inl e ↦ rw (
      e,
      find-suggested rest (set_option lower k (constant (lit v)) options),
      find-set k (constant (lit v)) options,
      or_next_assoc,
    )
    | inr e ↦ rw (e, find-suggested rest options, or_next_assoc)
  ]

  find-required :
      (ps : List (String × String)) (options : Options)
      → find_option lower key (set_required lower ps options)
        ≡ or_next (last_value ps) (find_option lower key options)
  unfolding set_required
  find-required [] options = refl
  find-required ((k, v) ∷ rest) options =
      rw (find-required rest _, find-set k (constant (lit v)) options, or_next_assoc)

  find-features :
      (fs : List String) (options : Options)
      → find_option lower key (set_features lower fs options)
        ≡ or_next (asked_feature fs) (find_option lower key options)
  unfolding set_features
  find-features [] options = refl
  find-features (f ∷ rest) options = rw (
    find-features rest _,
    find-set ("delta.feature." <> f) (constant (lit "supported")) options,
    or_next_assoc,
  )

  -- Under every key, in whichever case it is written, stands what comes first of: `supported`, if a
  -- feature that the server requires has that key; the last value that it requires for the key; the
  -- last value that it suggests and kernel takes; what the statement said.
  pub managed_options-priority :
      (staging : StagingTable) (options : Options)
      → find_option lower key (managed_options lower staging options)
        ≡ or_next (asked_feature staging.writer_features) (
            or_next (asked_feature staging.reader_features) (
              or_next (last_value staging.required_properties) (
                or_next
                  (last_creatable staging.suggested_properties)
                  (find_option lower key options))))
  unfolding managed_options
  managed_options-priority staging options = rw (
    find-features staging.writer_features _,
    find-features staging.reader_features _,
    find-required staging.required_properties _,
    find-suggested staging.suggested_properties options,
  )
