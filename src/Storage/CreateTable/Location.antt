-- ===== src/Storage/CreateTable/Location.antt =====
-- `ComparableLocation` and the check of `ExternalLocation` in src/storage/uc_table_set.cpp.
use unity_catalog.Base.{
  ℕ, ◌≡◌, ◌≢◌, refl, ap, [], ◌∷◌, ◌++◌, Bool, ◌&&◌, ◌||◌, ◌==◌, Text, lit, starts_with, drop,
  is_empty, if◌then◌else◌, arith, Option, none, some,
}
use unity_catalog.Result.{Result, ok, err, binder}

-- `/`
abbrev pub slash : ℕ
slash = 47

-- From the first character on that is no slash.
skip_slashes : Text → Text
skip_slashes [] = []
skip_slashes (c ∷ s) = if c == slash then skip_slashes s else c ∷ s

-- Without the slashes at the end.
cut_slashes : Text → Text
cut_slashes [] = []
cut_slashes (c ∷ s) =
    let rest = cut_slashes s in if c == slash && is_empty rest then [] else c ∷ rest

-- `while (location.size() > 1 && location.back() == '/')`: the first character stays.
pop_slashes : Text → Text
unfolding cut_slashes
pop_slashes [] = []
pop_slashes (c ∷ s) = c ∷ cut_slashes s

unfoldable pub comparable_location : Text → Text
unfolding pop_slashes skip_slashes
comparable_location location = pop_slashes (
    if starts_with location (lit "file:") then slash ∷ skip_slashes (drop 5 location) else location)

-- `StringUtil::Contains`
contains_text : Text → Text → Bool
contains_text [] p = is_empty p
contains_text (c ∷ s) p = starts_with (c ∷ s) p || contains_text s p

-- The text of the `location` option, `none` being NULL.
pub external_location : Option Text → Result Text
unfolding contains_text
external_location none = err binder
external_location (some location) =
    if starts_with location (lit "/") || contains_text location (lit "://")
    then ok location
    else err binder

cut_slashes-slash : (s : Text) → cut_slashes (s ++ slash ∷ []) ≡ cut_slashes s
unfolding cut_slashes
cut_slashes-slash [] = refl
cut_slashes-slash (c ∷ s) = rw (cut_slashes-slash s)

pop_slashes-slash : (c : ℕ) (s : Text) → pop_slashes (c ∷ s ++ slash ∷ []) ≡ pop_slashes (c ∷ s)
unfolding pop_slashes
pop_slashes-slash c s = ap (λ r. c ∷ r) (cut_slashes-slash s)

skip_slashes-keep : (c : ℕ) (s : Text) → c ≢ slash → skip_slashes (c ∷ s) ≡ c ∷ s
unfolding skip_slashes
skip_slashes-keep c s h = ground arith

-- The directory `/p`, where `p` begins with no slash, compares equal in each way to write it: as the
-- path, as `file:/p`, as `file:///p`, and with a slash behind it.
pub comparable_location-file :
    (c : ℕ) (path : Text)
    → c ≢ slash
    → (comparable_location (lit "file:" ++ slash ∷ c ∷ path)
        ≡ comparable_location (slash ∷ c ∷ path))
      × (comparable_location (lit "file://" ++ slash ∷ c ∷ path)
          ≡ comparable_location (slash ∷ c ∷ path))
      × (comparable_location (slash ∷ c ∷ path ++ slash ∷ [])
          ≡ comparable_location (slash ∷ c ∷ path))
unfolding comparable_location lit starts_with
comparable_location-file c path h =
    let skipped = ap (λ (t : Text). slash ∷ cut_slashes t) (skip_slashes-keep c path h) in
    (skipped, skipped, pop_slashes-slash slash (c ∷ path))
