-- ===== src/Irc/Wire.antt =====
-- The names and the literals that the Iceberg REST specification gives to an expression, and that
-- src/uc_irc_expression.cpp writes them.
use unity_catalog.Base.{
  ◌≡◌, refl, Option, none, some, Bool, true, false, [], ◌∷◌, Text, lit, if◌then◌else◌, ℤ, ℕ, ◌⊎◌,
  inl, inr, Bool-cases,
}
use unity_catalog.Irc.{
  Comparison, equal, not_equal, less_than, greater_than, less_or_equal, greater_or_equal,
  other_comparison, Values, Value, signed, unsigned, double, boolean, varchar, null_varchar,
  null_number, other_value, irc_type, conjunction_type, value_to_irc, json_quote,
}
use unity_catalog.Result.{ok}

-- An operator between a column and a literal.
pub data Operator : Type 0 where
  eq not_eq lt gt lt_eq gt_eq : Operator

-- Its name in JSON.
abbrev pub operator_name : Operator → Text
operator_name eq = b'e' ∷ b'q' ∷ []
operator_name not_eq = b'n' ∷ b'o' ∷ b't' ∷ b'-' ∷ b'e' ∷ b'q' ∷ []
operator_name lt = b'l' ∷ b't' ∷ []
operator_name gt = b'g' ∷ b't' ∷ []
operator_name lt_eq = b'l' ∷ b't' ∷ b'-' ∷ b'e' ∷ b'q' ∷ []
operator_name gt_eq = b'g' ∷ b't' ∷ b'-' ∷ b'e' ∷ b'q' ∷ []

-- The comparison that it stands for.
abbrev pub meant : Operator → Comparison
meant eq = equal
meant not_eq = not_equal
meant lt = less_than
meant gt = greater_than
meant lt_eq = less_or_equal
meant gt_eq = greater_or_equal

abbrev pub operator_of : Comparison → Option Operator
operator_of equal = some eq
operator_of not_equal = some not_eq
operator_of less_than = some lt
operator_of greater_than = some gt
operator_of less_or_equal = some lt_eq
operator_of greater_or_equal = some gt_eq
operator_of other_comparison = none

-- The operator of a comparison means it.
pub operator_of-meant : (t : Comparison) (o : Operator) → operator_of t ≡ some o → meant o ≡ t
operator_of-meant equal o h = cc
operator_of-meant not_equal o h = cc
operator_of-meant less_than o h = cc
operator_of-meant greater_than o h = cc
operator_of-meant less_or_equal o h = cc
operator_of-meant greater_or_equal o h = cc
operator_of-meant other_comparison o h = cc

-- What the code writes for a comparison is the name of its operator.
abbrev pub named : Option Operator → Option Text
named none = none
named (some o) = some (operator_name o)

pub irc_type-named : (t : Comparison) → irc_type t ≡ named (operator_of t)
unfolding irc_type lit
irc_type-named equal = refl
irc_type-named not_equal = refl
irc_type-named less_than = refl
irc_type-named greater_than = refl
irc_type-named less_or_equal = refl
irc_type-named greater_or_equal = refl
irc_type-named other_comparison = refl

-- The name of an AND, or else of an OR.
abbrev pub connective : Bool → Text
connective true = b'a' ∷ b'n' ∷ b'd' ∷ []
connective false = b'o' ∷ b'r' ∷ []

pub conjunction_type-connective : (is_and : Bool) → conjunction_type is_and ≡ connective is_and
unfolding lit
conjunction_type-connective true = refl
conjunction_type-connective false = refl

module _ (values : Values) where
  open values use {Double, is_finite, format_double, signed_text, unsigned_text}

  -- A literal of an expression.
  pub data Literal : Type 0 where
    integer : ℤ → Literal
    natural : ℕ → Literal
    real : Double → Literal
    truth : Bool → Literal
    string : Text → Literal

  abbrev pub literal_text : Literal → Text
  literal_text (integer n) = signed_text n
  literal_text (natural n) = unsigned_text n
  literal_text (real d) = format_double d
  literal_text (truth true) = b't' ∷ b'r' ∷ b'u' ∷ b'e' ∷ []
  literal_text (truth false) = b'f' ∷ b'a' ∷ b'l' ∷ b's' ∷ b'e' ∷ []
  literal_text (string s) = json_quote s

  -- The constant that it stands for.
  abbrev pub value_of : Literal → Value values
  value_of (integer n) = signed n
  value_of (natural n) = unsigned n
  value_of (real d) = double d
  value_of (truth b) = boolean b
  value_of (string s) = varchar s

  -- The literal of a constant, if it has one.
  abbrev pub literal : Value values → Option Literal
  literal (signed n) = some (integer n)
  literal (unsigned n) = some (natural n)
  literal (double d) = if is_finite d then some (real d) else none
  literal (boolean b) = some (truth b)
  literal (varchar s) = some (string s)
  literal null_varchar = some (string (b'N' ∷ b'U' ∷ b'L' ∷ b'L' ∷ []))
  literal null_number = none
  literal other_value = none

  abbrev pub literal_text? : Option Literal → Text
  literal_text? none = []
  literal_text? (some l) = literal_text l

  -- The conversion of the constant does not throw.
  abbrev pub converts : Value values → Bool
  converts null_number = false
  converts _ = true

  -- What the code writes for a constant is its literal.
  pub value_to_irc-literal :
      (v : Value values)
      → converts v ≡ true
      → value_to_irc values v ≡ ok (literal_text? (literal v))
  unfolding value_to_irc lit
  value_to_irc-literal (signed n) k = refl
  value_to_irc-literal (unsigned n) k = refl
  value_to_irc-literal (double d) k = elim (Bool-cases (is_finite d)) [
    | inl e ↦ rw e refl
    | inr e ↦ rw e refl
  ]
  value_to_irc-literal (boolean true) k = refl
  value_to_irc-literal (boolean false) k = refl
  value_to_irc-literal (varchar s) k = refl
  value_to_irc-literal null_varchar k = refl
  value_to_irc-literal null_number k = cc
  value_to_irc-literal other_value k = refl

  -- The literal of a constant stands for it, or is the text of a NULL.
  pub literal-value_of :
      (v : Value values) (l : Literal) → literal v ≡ some l → (value_of l ≡ v) ⊎ (v ≡ null_varchar)
  literal-value_of (signed n) l h = inl cc
  literal-value_of (unsigned n) l h = inl cc
  literal-value_of (double d) l h = elim (Bool-cases (is_finite d)) [
    | inl e ↦ let same : some (real d) ≡ some l = rw e at h in inl cc
    | inr e ↦ let none_there : ◌≡◌ {A = Option Literal} none (some l) = rw e at h in absurd cc
  ]
  literal-value_of (boolean b) l h = inl cc
  literal-value_of (varchar s) l h = inl cc
  literal-value_of null_varchar l h = inr refl
  literal-value_of null_number l h = absurd cc
  literal-value_of other_value l h = absurd cc
