-- ===== src/Irc/Lower.antt =====
-- `ExprToIRCJson` of src/uc_irc_expression.cpp, as the rendering of an expression tree.
use unity_catalog.Base.{
  ℕ, ◌≡◌, refl, ap, Option, none, some, List, [], ◌∷◌, ◌++◌, map, Bool, true, false, arith,
  is_empty, if◌then◌else◌, Text, lit, Bool-cases, Option-cases, inl, inr,
}
use unity_catalog.Irc.{
  Comparison, Values, Value, Expr, column, constant, comparison, conjunction, null_test,
  unsupported, Exprs, nil, cons, operands, predicate, with_term, comparison_to_irc, add_filter,
  null_test_to_irc, add_part, conjunction_to_irc, expr_to_irc, parts_of, join, join_all, irc_type,
  term_for_column, json_quote, filter_parts, serialize_filters_to_irc,
}
use unity_catalog.Result.{ok}
use unity_catalog.Irc.Convert.{
  converts?, operands-converts, all_convert, children_convert, filters_convert,
}
use unity_catalog.Irc.Wire.{
  Operator, operator_name, operator_of, irc_type-named, connective, conjunction_type-connective,
  Literal, literal, literal_text, literal_text?, converts, value_to_irc-literal,
}

module _ (values : Values) where
  -- An expression of the Iceberg REST specification.
  pub data Irc : Type 0 where
    compare : Operator → Text → Literal values → Irc
    combine : Bool → Irc → Irc → Irc
    is_null : Bool → Text → Irc

  -- Its JSON.
  unfoldable pub render : Irc → Text
  render (compare o c l) =
      lit "{\"type\":\""
      ++ (operator_name o
          ++ (lit "\",\"term\":"
              ++ (json_quote c ++ (lit ",\"value\":" ++ (literal_text values l ++ lit "}")))))
  render (combine is_and a b) =
      lit "{\"type\":\""
      ++ (connective is_and
          ++ (lit "\",\"left\":" ++ (render a ++ (lit ",\"right\":" ++ (render b ++ lit "}")))))
  render (is_null b c) =
      lit "{\"type\":\""
      ++ ((if b then lit "is-null" else lit "not-null")
          ++ (lit "\",\"term\":" ++ (json_quote c ++ lit "}")))

  -- A comparison that can be sent.
  -- With the literal of a constant, where it has one that is not empty.
  unfoldable pub with_literal : Operator → Text → Option (Literal values) → Option Irc
  with_literal o c none = none
  with_literal o c (some l) =
      if is_empty (literal_text values l) then none else some (compare o c l)

  unfoldable pub lower_comparison : Option (Comparison × Text × Value values) → Option Irc
  lower_comparison none = none
  lower_comparison (some (t, c, v)) = elim (operator_of t) [
    | none ↦ none
    | some o ↦ if is_empty c then none else with_literal o c (literal values v)
  ]

  unfoldable pub lower_null_test : Bool → Exprs values → Option Irc
  lower_null_test b (cons (column c) nil) = if is_empty c then none else some (is_null b c)
  lower_null_test b _ = none

  unfoldable pub combine_all : Bool → Irc → List Irc → Irc
  combine_all is_and i [] = i
  combine_all is_and i (j ∷ js) = combine_all is_and (combine is_and i j) js

  unfoldable pub lower_all : Bool → List Irc → Option Irc
  lower_all is_and [] = none
  lower_all is_and (i ∷ is) = some (combine_all is_and i is)

  unfoldable pub add_lowered : Bool → Option Irc → Option (List Irc) → Option (List Irc)
  add_lowered is_and none rest = if is_and then rest else none
  add_lowered is_and (some i) none = none
  add_lowered is_and (some i) (some is) = some (i ∷ is)

  unfoldable pub lower_conjunction : Bool → Option (List Irc) → Option Irc
  lower_conjunction is_and none = none
  lower_conjunction is_and (some is) = lower_all is_and is

  -- The part of a filter that can be sent: an OR only whole, an AND without what cannot be.
  unfoldable mutual
    pub lower : Expr values → Option Irc
    lower (column c) = none
    lower (constant v) = none
    lower (comparison t l r) = lower_comparison (operands values t l r)
    lower (conjunction is_and children) = lower_conjunction is_and (lower_parts is_and children)
    lower (null_test b children) = lower_null_test b children
    lower (unsupported n) = none

    pub lower_parts : Bool → Exprs values → Option (List Irc)
    lower_parts is_and nil = some []
    lower_parts is_and (cons e es) = add_lowered is_and (lower e) (lower_parts is_and es)

  abbrev pub text_of : Option Irc → Text
  text_of none = []
  text_of (some i) = render i

  abbrev texts_of : Option (List Irc) → Option (List Text)
  texts_of none = none
  texts_of (some is) = some (map render is)

  render_some : (i : Irc) → (c : ℕ) × (s : Text) × (render i ≡ c ∷ s)
  unfolding lit render
  render_some (compare t c v) = (_, _, refl)
  render_some (combine b i j) = (_, _, refl)
  render_some (is_null b c) = (_, _, refl)

  literal-text :
      (o : Operator) (c : ℕ) (s : Text) (l : Option (Literal values))
      → predicate values (operator_name o) (json_quote (c ∷ s)) (literal_text? values l)
        ≡ text_of (with_literal o (c ∷ s) l)
  unfolding predicate with_literal render
  literal-text o c s none = refl
  literal-text o c s (some l) = elim (Bool-cases (is_empty (literal_text values l))) [
    | inl e ↦ rw e refl
    | inr e ↦ rw e refl
  ]

  term-text :
      (o : Operator) (c : Text) (v : Value values)
      → converts values v ≡ true
      → with_term values (operator_name o) (term_for_column c) v
        ≡ ok (text_of (if is_empty c then none else with_literal o c (literal values v)))
  unfolding with_term term_for_column json_quote
  term-text o [] v k = refl
  term-text o (x ∷ s) v k =
      rw (value_to_irc-literal values v k) (ap ok (literal-text o x s (literal values v)))

  comparison-text :
      (o : Option (Comparison × Text × Value values))
      → converts? values o ≡ true
      → comparison_to_irc values o ≡ ok (text_of (lower_comparison o))
  unfolding comparison_to_irc lower_comparison
  comparison-text none k = refl
  comparison-text (some (t, c, v)) k = elim (Option-cases (operator_of t)) [
    | inl h ↦
        let unnamed : irc_type t ≡ none = rw h at (irc_type-named t) in
        rw (unnamed, h, comparison_to_irc, lower_comparison) refl
    | inr (o, h) ↦
        let name : irc_type t ≡ some (operator_name o) = rw h at (irc_type-named t) in
        rw (name, h, comparison_to_irc, lower_comparison) (term-text o c v k)
  ]

  null_test-text :
      (b : Bool) (es : Exprs values) → null_test_to_irc values b es ≡ text_of (lower_null_test b es)
  unfolding null_test_to_irc lower_null_test term_for_column render json_quote
  null_test-text b nil = refl
  null_test-text b (cons (column []) nil) = refl
  null_test-text b (cons (column (x ∷ s)) nil) = refl
  null_test-text b (cons (column c) (cons e es)) = refl
  null_test-text b (cons (constant v) es) = refl
  null_test-text b (cons (comparison t l r) es) = refl
  null_test-text b (cons (conjunction a cs) es) = refl
  null_test-text b (cons (null_test a cs) es) = refl
  null_test-text b (cons (unsupported n) es) = refl

  join-text :
      (is_and : Bool) (i : Irc) (is : List Irc)
      → join (connective is_and) (render i) (map render is) ≡ render (combine_all is_and i is)
  unfolding join combine_all render
  join-text is_and i [] = refl
  join-text is_and i (j ∷ js) = join-text is_and (combine is_and i j) js

  add_part-text :
      (is_and : Bool) (o : Option Irc) (rest : Option (List Irc))
      → add_part values is_and (ok (text_of o)) (ok (texts_of rest))
        ≡ ok (texts_of (add_lowered is_and o rest))
  unfolding add_part add_lowered
  add_part-text true none rest = refl
  add_part-text false none rest = refl
  add_part-text is_and (some i) none = let (c, s, h) = render_some i in rw h refl
  add_part-text is_and (some i) (some is) = let (c, s, h) = render_some i in rw h refl

  conjunction-text :
      (is_and : Bool) (o : Option (List Irc))
      → conjunction_to_irc values is_and (texts_of o) ≡ text_of (lower_conjunction is_and o)
  unfolding conjunction_to_irc lower_conjunction lower_all join_all
  conjunction-text is_and none = refl
  conjunction-text is_and (some []) = refl
  conjunction-text is_and (some (i ∷ is)) =
      rw (conjunction_type-connective is_and) (join-text is_and i is)

  mutual
    unfolding expr_to_irc parts_of lower lower_parts all_convert

    -- The text of an expression is the JSON of its part that can be sent, and empty exactly where
    -- there is none.
    pub expr_to_irc-lower :
        (e : Expr values)
        → all_convert values e ≡ true
        → expr_to_irc values e ≡ ok (text_of (lower e))
    expr_to_irc-lower (column c) k = refl
    expr_to_irc-lower (constant v) k = refl
    expr_to_irc-lower (comparison t l r) k =
        comparison-text (operands values t l r) (operands-converts values t l r k)
    expr_to_irc-lower (conjunction a es) k =
        rw (parts_of-lower a es k) (ap ok (conjunction-text a (lower_parts a es)))
    expr_to_irc-lower (null_test b es) k = ap ok (null_test-text b es)
    expr_to_irc-lower (unsupported n) k = refl

    parts_of-lower :
        (is_and : Bool) (es : Exprs values)
        → children_convert values es ≡ true
        → parts_of values is_and es ≡ ok (texts_of (lower_parts is_and es))
    parts_of-lower is_and nil k = refl
    parts_of-lower is_and (cons e es) k =
        rw (expr_to_irc-lower e (ground arith), parts_of-lower is_and es (ground arith))
          (add_part-text is_and (lower e) (lower_parts is_and es))

  unfoldable pub lower_filters : List (Expr values) → List Irc
  lower_filters [] = []
  lower_filters (f ∷ fs) = elim (lower f) [
    | none ↦ lower_filters fs
    | some i ↦ i ∷ lower_filters fs
  ]

  filter_parts-lower :
      (fs : List (Expr values))
      → filters_convert values fs ≡ true
      → filter_parts values fs ≡ ok (map render (lower_filters fs))
  unfolding filter_parts add_filter lower_filters filters_convert
  filter_parts-lower [] k = refl
  filter_parts-lower (f ∷ fs) k =
      let first = expr_to_irc-lower f (ground arith) in
      let later = filter_parts-lower fs (ground arith) in
      elim (Option-cases (lower f)) [
        | inl h ↦ rw (first, later, h, lower_filters) refl
        | inr (i, h) ↦ let (c, s, g) = render_some i in rw (first, later, h, lower_filters, g) refl
      ]

  pub serialize_filters-lower :
      (fs : List (Expr values))
      → filters_convert values fs ≡ true
      → serialize_filters_to_irc values fs ≡ ok (text_of (lower_all true (lower_filters fs)))
  unfolding serialize_filters_to_irc lower_all join_all lit
  serialize_filters-lower fs k = rw (filter_parts-lower fs k) (ap ok (all (lower_filters fs)))
    where
      all : (is : List Irc) → join_all (lit "and") (map render is) ≡ text_of (lower_all true is)
      all [] = refl
      all (i ∷ is) = join-text true i is
