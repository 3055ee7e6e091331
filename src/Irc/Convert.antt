-- ===== src/Irc/Convert.antt =====
-- Filters whose constants src/uc_irc_expression.cpp converts without an exception.
use unity_catalog.Base.{◌≡◌, refl, Option, none, some, List, [], ◌∷◌, Bool, true, ◌&&◌, Text, arith}
use unity_catalog.Irc.{
  Comparison, Values, Value, Expr, column, constant, comparison, conjunction, null_test,
  unsupported, Exprs, nil, cons, operands,
}
use unity_catalog.Irc.Wire.{converts}

module _ (values : Values) where
  -- The constant of the operands, if there are any, converts.
  abbrev pub converts? : Option (Comparison × Text × Value values) → Bool
  converts? none = true
  converts? (some (t, c, v)) = converts values v

  abbrev side_converts : Expr values → Bool
  side_converts (constant v) = converts values v
  side_converts _ = true

  -- No constant of a comparison is a NULL on which the conversion throws.
  unfoldable mutual
    pub all_convert : Expr values → Bool
    all_convert (comparison t l r) = side_converts l && side_converts r
    all_convert (conjunction is_and children) = children_convert children
    all_convert (column c) = true
    all_convert (constant v) = true
    all_convert (null_test b children) = true
    all_convert (unsupported n) = true

    pub children_convert : Exprs values → Bool
    children_convert nil = true
    children_convert (cons e es) = all_convert e && children_convert es

  pub operands-converts :
      (t : Comparison) (l r : Expr values)
      → (side_converts l && side_converts r) ≡ true
      → converts? (operands values t l r) ≡ true
  unfolding operands
  operands-converts t (column c) (column d) k = refl
  operands-converts t (column c) (constant v) k = k
  operands-converts t (column c) (comparison u a b) k = refl
  operands-converts t (column c) (conjunction b es) k = refl
  operands-converts t (column c) (null_test b es) k = refl
  operands-converts t (column c) (unsupported n) k = refl
  operands-converts t (constant v) (column d) k = ground arith
  operands-converts t (constant v) (constant w) k = refl
  operands-converts t (constant v) (comparison u a b) k = refl
  operands-converts t (constant v) (conjunction b es) k = refl
  operands-converts t (constant v) (null_test b es) k = refl
  operands-converts t (constant v) (unsupported n) k = refl
  operands-converts t (comparison u a b) r k = refl
  operands-converts t (conjunction b es) r k = refl
  operands-converts t (null_test b es) r k = refl
  operands-converts t (unsupported n) r k = refl

  unfoldable pub filters_convert : List (Expr values) → Bool
  filters_convert [] = true
  filters_convert (f ∷ fs) = all_convert f && filters_convert fs
