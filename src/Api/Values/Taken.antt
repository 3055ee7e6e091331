-- ===== src/Api/Values/Taken.antt =====
-- Reading a map of strings (src/uc_api.cpp) never throws ENTRY_ALREADY_EXISTS.
use unity_catalog.Base.{String, Option, List, [], ◌∷◌, arith}
use unity_catalog.Json.{Yyjson, obj?, fields?}
use unity_catalog.Api.Errors.Taken.{Avoids, >>=-Avoids}
use unity_catalog.Api.Values.{Printer, read_property, read_properties, read_string_map}

module _ (json : Yyjson) (printer : Printer json.Val) where
  open json use {Val}

  read_property-Avoids : (f : String × Val) → Avoids (read_property json printer f)
  unfolding read_property
  read_property-Avoids (key, val) = λ q. ground arith

  read_properties-Avoids : (fs : List (String × Val)) → Avoids (read_properties json printer fs)
  unfolding read_properties
  read_properties-Avoids [] = λ q. cc
  read_properties-Avoids (f ∷ fs) =
      >>=-Avoids (read_property json printer f) _ (read_property-Avoids f)
        λ p. >>=-Avoids (read_properties json printer fs) _ (read_properties-Avoids fs) λ ps q. cc

  pub read_string_map-Avoids : (obj : Option Val) → Avoids (read_string_map json printer obj)
  unfolding read_string_map
  read_string_map-Avoids obj = read_properties-Avoids (fields? json (obj? json obj))
