-- ===== src/Irc.antt =====
-- src/uc_irc_expression.cpp: DuckDB's filters as the JSON of Iceberg REST expressions. An empty text
-- says that there is nothing to send.
pub mod Quote
pub mod Wire
pub mod Convert
pub mod Lower
pub mod Meaning
pub mod Prune
use unity_catalog.Base.{
  ℕ, Option, none, some, List, [], ◌∷◌, ◌++◌, Bool, true, false, is_empty, if◌then◌else◌, ◌==◌, ℤ,
  Text, lit,
}
use unity_catalog.Result.{Result, ok, err, internal, ◌>>=◌}

-- An `ExpressionType` of a comparison; `other_comparison` is one of those with no case.
pub data Comparison : Type 0 where
  equal not_equal less_than greater_than less_or_equal greater_or_equal : Comparison
  other_comparison : Comparison

-- What the code calls of DuckDB and of the C++ library.
pub record Values : Type 1 where
  pub Double : Type 0
  pub is_finite : Double → Bool
  -- `StringUtil::Format("%.17g", d)`
  pub format_double : Double → Text
  -- `std::to_string`
  pub signed_text : ℤ → Text
  pub unsigned_text : ℕ → Text
  -- `FlipComparisonExpression`
  pub flip : Comparison → Comparison

-- `JsonQuote`
pub escape : ℕ → Text
escape c =
    if c == 34
    then lit "\\\""
    else if c == 92
    then lit "\\\\"
    else if c == 10
    then lit "\\n"
    else if c == 13
    then lit "\\r"
    else if c == 9
    then lit "\\t"
    else c ∷ []

pub escape_all : Text → Text
unfolding escape
escape_all [] = []
escape_all (c ∷ s) = escape c ++ escape_all s

pub json_quote : Text → Text
unfolding escape_all
json_quote s = 34 ∷ (escape_all s ++ 34 ∷ [])

-- `parts[0]`, with each further part joined on its right.
pub join : Text → Text → List Text → Text
join irc_type result [] = result
join irc_type result (part ∷ parts) =
    join irc_type
      (lit "{\"type\":\""
        ++ (irc_type
            ++ (lit "\",\"left\":" ++ (result ++ (lit ",\"right\":" ++ (part ++ lit "}"))))))
      parts

pub join_all : Text → List Text → Text
join_all irc_type [] = []
join_all irc_type (part ∷ parts) = join irc_type part parts

pub irc_type : Comparison → Option Text
irc_type equal = some (lit "eq")
irc_type not_equal = some (lit "not-eq")
irc_type less_than = some (lit "lt")
irc_type greater_than = some (lit "gt")
irc_type less_or_equal = some (lit "lt-eq")
irc_type greater_or_equal = some (lit "gt-eq")
irc_type other_comparison = none

-- `TermForColumnRef`
pub term_for_column : Text → Text
term_for_column col_name = if is_empty col_name then [] else json_quote col_name

abbrev pub conjunction_type : Bool → Text
conjunction_type is_and = if is_and then lit "and" else lit "or"

module _ (values : Values) where
  open values use {Double, is_finite, format_double, signed_text, unsigned_text, flip}

  -- A `Value`, by the types that the code tells apart; `null_varchar` is a NULL of type VARCHAR, and
  -- `null_number` one of a number or a BOOLEAN.
  pub data Value : Type 0 where
    signed : ℤ → Value
    unsigned : ℕ → Value
    double : Double → Value
    boolean : Bool → Value
    varchar : Text → Value
    null_varchar : Value
    null_number : Value
    other_value : Value

  -- An `Expression`, by the classes that the code tells apart; `unsupported` is any other, a bound
  -- function that is no comparison included. An operator carries whether it is IS NULL, or else IS
  -- NOT NULL; those of another type are `unsupported`.
  mutual
    pub data Expr : Type 0 where
      column : Text → Expr
      constant : Value → Expr
      comparison : Comparison → Expr → Expr → Expr
      -- an AND, or else an OR
      conjunction : Bool → Exprs → Expr
      null_test : Bool → Exprs → Expr
      unsupported : ℕ → Expr

    pub data Exprs : Type 0 where
      nil : Exprs
      cons : Expr → Exprs → Exprs

  -- `ValueToIRCJson`; `GetValue` of a NULL throws, where `ToString` gives a text.
  pub value_to_irc : Value → Result Text
  value_to_irc (signed n) = ok (signed_text n)
  value_to_irc (unsigned n) = ok (unsigned_text n)
  value_to_irc (double d) = ok (if is_finite d then format_double d else [])
  value_to_irc (boolean b) = ok (if b then lit "true" else lit "false")
  value_to_irc (varchar s) = ok (json_quote s)
  value_to_irc null_varchar = ok (json_quote (lit "NULL"))
  value_to_irc null_number = err internal
  value_to_irc other_value = ok []

  -- The column and the constant of a comparison, with its type as seen from the column.
  pub operands : Comparison → Expr → Expr → Option (Comparison × Text × Value)
  operands t (column c) (constant v) = some (t, c, v)
  operands t (constant v) (column c) = some (flip t, c, v)
  operands t _ _ = none

  -- The predicate, where its constant has a text.
  pub predicate : Text → Text → Text → Text
  predicate type term val_json =
      if is_empty val_json
      then []
      else lit "{\"type\":\""
        ++ (type ++ (lit "\",\"term\":" ++ (term ++ (lit ",\"value\":" ++ (val_json ++ lit "}")))))

  -- Behind the term, whose column has a name.
  pub with_term : Text → Text → Value → Result Text
  with_term type [] v = ok []
  with_term type (c ∷ term) v =
      value_to_irc v >>= λ val_json. ok (predicate type (c ∷ term) val_json)

  pub comparison_to_irc : Option (Comparison × Text × Value) → Result Text
  comparison_to_irc none = ok []
  comparison_to_irc (some (t, c, v)) = elim (irc_type t) [
    | none ↦ ok []
    | some type ↦ with_term type (term_for_column c) v
  ]

  pub null_test_to_irc : Bool → Exprs → Text
  null_test_to_irc is_null (cons (column c) nil) =
      let term = term_for_column c in
      if is_empty term
      then []
      else lit "{\"type\":\""
        ++ ((if is_null then lit "is-null" else lit "not-null")
            ++ (lit "\",\"term\":" ++ (term ++ lit "}")))
  null_test_to_irc is_null _ = []

  -- What a child adds to the parts behind it; `none` is the return of "" for the whole OR, without a
  -- look at the children behind.
  pub add_part : Bool → Result Text → Result (Option (List Text)) → Result (Option (List Text))
  add_part is_and (err e) rest = err e
  add_part is_and (ok []) rest = if is_and then rest else ok none
  add_part is_and (ok (c ∷ s)) (err e) = err e
  add_part is_and (ok (c ∷ s)) (ok none) = ok none
  add_part is_and (ok (c ∷ s)) (ok (some parts)) = ok (some ((c ∷ s) ∷ parts))

  pub conjunction_to_irc : Bool → Option (List Text) → Text
  conjunction_to_irc is_and none = []
  conjunction_to_irc is_and (some parts) = join_all (conjunction_type is_and) parts

  -- `ExprToIRCJson`
  mutual
    pub expr_to_irc : Expr → Result Text
    expr_to_irc (column c) = ok []
    expr_to_irc (constant v) = ok []
    expr_to_irc (comparison t l r) = comparison_to_irc (operands t l r)
    expr_to_irc (conjunction is_and children) =
        parts_of is_and children >>= λ parts. ok (conjunction_to_irc is_and parts)
    expr_to_irc (null_test is_null children) = ok (null_test_to_irc is_null children)
    expr_to_irc (unsupported n) = ok []

    pub parts_of : Bool → Exprs → Result (Option (List Text))
    parts_of is_and nil = ok (some [])
    parts_of is_and (cons e es) = add_part is_and (expr_to_irc e) (parts_of is_and es)

  -- What a filter adds to the parts of those behind it.
  pub add_filter : Text → List Text → List Text
  add_filter s parts = if is_empty s then parts else s ∷ parts

  -- The parts of the filters that can be sent.
  pub filter_parts : List Expr → Result (List Text)
  filter_parts [] = ok []
  filter_parts (f ∷ fs) = do s ← expr_to_irc f; parts ← filter_parts fs; ok (add_filter s parts)

  pub serialize_filters_to_irc : List Expr → Result Text
  serialize_filters_to_irc filters =
      filter_parts filters >>= λ parts. ok (join_all (lit "and") parts)
