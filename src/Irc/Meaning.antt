-- ===== src/Irc/Meaning.antt =====
-- What the filters of a query, and the expressions of src/uc_irc_expression.cpp, say of a row.
use unity_catalog.Base.{
  ◌≡◌, Option, none, some, List, [], ◌∷◌, Bool, true, false, ◌&&◌, ◌||◌, if◌then◌else◌, Text,
}
use unity_catalog.Irc.{
  Comparison, Values, Value, Expr, column, constant, comparison, conjunction, null_test,
  unsupported, Exprs, nil, cons, null_varchar,
}
use unity_catalog.Irc.Wire.{Operator, meant, value_of}
use unity_catalog.Irc.Lower.{Irc, compare, combine, is_null}

-- A row, by which of the atoms are true of it; a comparison that is NULL is not true. `flip` turns a
-- comparison round, as `FlipComparisonExpression` is documented to.
pub record Meaning (values : Values) : Type 1 where
  pub Row : Type 0
  -- column, comparison, constant
  pub compares : Row → Text → Comparison → Value values → Bool
  -- constant, comparison, column
  pub compares_from : Row → Value values → Comparison → Text → Bool
  pub flip_lem :
      (row : Row) (v : Value values) (t : Comparison) (c : Text)
      → compares row c (values.flip t) v ≡ compares_from row v t c
  -- a comparison with a NULL, by an operator that can be sent, is not true
  pub null_lem :
      (row : Row) (c : Text) (o : Operator) → compares row c (meant o) null_varchar ≡ false
  pub null : Row → Text → Bool
  -- the truth of any other expression
  pub other : Row → Expr values → Bool

module _ (values : Values) (meaning : Meaning values) where
  open meaning use {Row, compares, compares_from, flip_lem, null, other}

  unfoldable pub compares_sides : Row → Comparison → Expr values → Expr values → Bool
  compares_sides row t (column c) (constant v) = compares row c t v
  compares_sides row t (constant v) (column c) = compares_from row v t c
  compares_sides row t l r = other row (comparison t l r)

  unfoldable pub is_null_of : Row → Bool → Exprs values → Bool
  is_null_of row true (cons (column c) nil) = null row c
  is_null_of row false (cons (column c) nil) = if null row c then false else true
  is_null_of row b es = other row (null_test b es)

  -- Whether a filter is true of a row.
  unfoldable mutual
    pub keeps : Row → Expr values → Bool
    keeps row (column c) = other row (column c)
    keeps row (constant v) = other row (constant v)
    keeps row (comparison t l r) = compares_sides row t l r
    keeps row (conjunction is_and es) = if is_and then keeps_all row es else keeps_any row es
    keeps row (null_test b es) = is_null_of row b es
    keeps row (unsupported n) = other row (unsupported n)

    pub keeps_all : Row → Exprs values → Bool
    keeps_all row nil = true
    keeps_all row (cons e es) = keeps row e && keeps_all row es

    pub keeps_any : Row → Exprs values → Bool
    keeps_any row nil = false
    keeps_any row (cons e es) = keeps row e || keeps_any row es

  -- Whether an expression that was sent is true of a row.
  unfoldable pub admits : Row → Irc values → Bool
  admits row (compare o c l) = compares row c (meant o) (value_of values l)
  admits row (combine is_and a b) =
      if is_and then admits row a && admits row b else admits row a || admits row b
  admits row (is_null true c) = null row c
  admits row (is_null false c) = if null row c then false else true

  abbrev pub admits? : Row → Option (Irc values) → Bool
  admits? row none = true
  admits? row (some i) = admits row i

  unfoldable pub keeps_filters : Row → List (Expr values) → Bool
  keeps_filters row [] = true
  keeps_filters row (f ∷ fs) = keeps row f && keeps_filters row fs
