-- ===== src/Irc/Prune.antt =====
-- What src/uc_irc_expression.cpp sends never prunes a row that the query's filters keep.
use unity_catalog.Base.{
  ◌≡◌, refl, sym, subst, ◌∙◌, Option, none, some, List, [], ◌∷◌, Bool, true, false, ◌&&◌, ◌||◌,
  is_empty, Text, arith, ◌⊎◌, Bool-cases, Option-cases, inl, inr,
}
use unity_catalog.Irc.{
  Comparison, Values, Value, Expr, column, constant, comparison, conjunction, null_test,
  unsupported, Exprs, nil, cons, operands, serialize_filters_to_irc,
}
use unity_catalog.Result.{ok}
use unity_catalog.Irc.Convert.{filters_convert}
use unity_catalog.Irc.Lower.{
  with_literal, Irc, combine, lower, lower_parts, lower_comparison, lower_null_test, combine_all,
  lower_all, add_lowered, lower_conjunction, lower_filters, text_of, serialize_filters-lower,
}
use unity_catalog.Irc.Wire.{
  Operator, operator_of, meant, operator_of-meant, Literal, literal, literal_text, literal-value_of,
  value_of,
}
use unity_catalog.Irc.Meaning.{
  Meaning, compares_sides, is_null_of, keeps, keeps_all, keeps_any, admits, admits?, keeps_filters,
}

module _ (values : Values) (meaning : Meaning values) where
  open meaning use {Row, compares, compares_from, flip_lem, null_lem, null, other}

  literal-holds :
      (row : Row) (o : Operator) (c : Text) (v : Value values) (l : Literal values)
      → literal values v ≡ some l
      → compares row c (meant o) v ≡ true
      → compares row c (meant o) (value_of values l) ≡ true
  literal-holds row o c v l e h = elim (literal-value_of values v l e) [
    | inl same ↦ subst (λ x. compares row c (meant o) x ≡ true) (sym same) h
    | inr null_there ↦
        let never = null_lem row c o in
        let holds = subst (λ x. compares row c (meant o) x ≡ true) null_there h in cc (never, holds)
  ]

  with_literal-admits :
      (row : Row) (o : Operator) (c : Text) (v : Value values) (l : Option (Literal values))
      → literal values v ≡ l
      → compares row c (meant o) v ≡ true
      → admits? values meaning row (with_literal values o c l) ≡ true
  unfolding with_literal admits
  with_literal-admits row o c v none e h = refl
  with_literal-admits row o c v (some l) e h =
      elim (Bool-cases (is_empty (literal_text values l))) [
        | inl f ↦ rw f refl
        | inr f ↦ rw f (literal-holds row o c v l e h)
      ]

  sent-admits :
      (row : Row) (t : Comparison) (c : Text) (v : Value values)
      → compares row c t v ≡ true
      → admits? values meaning row (lower_comparison values (some (t, c, v))) ≡ true
  unfolding lower_comparison
  sent-admits row t c v h = elim (Option-cases (operator_of t)) [
    | inl e ↦ rw (e, lower_comparison) refl
    | inr (o, e) ↦
        rw (e, lower_comparison)
          (elim (Bool-cases (is_empty c)) [
            | inl f ↦ rw f refl
            | inr f ↦ rw f (
                with_literal-admits row o c v (literal values v) refl
                  (rw (operator_of-meant t o e) h))
          ])
  ]

  comparison-admits :
      (row : Row) (t : Comparison) (l r : Expr values)
      → compares_sides values meaning row t l r ≡ true
      → admits? values meaning row (lower_comparison values (operands values t l r)) ≡ true
  unfolding compares_sides operands lower_comparison
  comparison-admits row t (column c) (column d) h = refl
  comparison-admits row t (column c) (constant w) h = sent-admits row t c w h
  comparison-admits row t (column c) (comparison u a b) h = refl
  comparison-admits row t (column c) (conjunction k es) h = refl
  comparison-admits row t (column c) (null_test k es) h = refl
  comparison-admits row t (column c) (unsupported n) h = refl
  comparison-admits row t (constant v) (column d) h =
      sent-admits row (values.flip t) d v (flip_lem row v t d ∙ h)
  comparison-admits row t (constant v) (constant w) h = refl
  comparison-admits row t (constant v) (comparison u a b) h = refl
  comparison-admits row t (constant v) (conjunction k es) h = refl
  comparison-admits row t (constant v) (null_test k es) h = refl
  comparison-admits row t (constant v) (unsupported n) h = refl
  comparison-admits row t (comparison u a b) r h = refl
  comparison-admits row t (conjunction k es) r h = refl
  comparison-admits row t (null_test k es) r h = refl
  comparison-admits row t (unsupported n) r h = refl

  null_test-admits :
      (row : Row) (b : Bool) (es : Exprs values)
      → is_null_of values meaning row b es ≡ true
      → admits? values meaning row (lower_null_test values b es) ≡ true
  unfolding is_null_of lower_null_test admits
  null_test-admits row true (cons (column []) nil) h = refl
  null_test-admits row false (cons (column []) nil) h = refl
  null_test-admits row true (cons (column (x ∷ s)) nil) h = h
  null_test-admits row false (cons (column (x ∷ s)) nil) h = h
  null_test-admits row b nil h = refl
  null_test-admits row b (cons (column c) (cons e es)) h = refl
  null_test-admits row b (cons (constant v) es) h = refl
  null_test-admits row b (cons (comparison t l r) es) h = refl
  null_test-admits row b (cons (conjunction k cs) es) h = refl
  null_test-admits row b (cons (null_test k cs) es) h = refl
  null_test-admits row b (cons (unsupported n) es) h = refl

  all_admit : Row → List (Irc values) → Bool
  all_admit row [] = true
  all_admit row (i ∷ is) = admits values meaning row i && all_admit row is

  any_admit : Row → List (Irc values) → Bool
  any_admit row [] = false
  any_admit row (i ∷ is) = admits values meaning row i || any_admit row is

  abbrev parts_admit : Row → Bool → Option (List (Irc values)) → Bool
  parts_admit row is_and none = true
  parts_admit row true (some is) = all_admit row is
  parts_admit row false (some is) = any_admit row is

  combine_and :
      (row : Row) (i : Irc values) (is : List (Irc values))
      → admits values meaning row (combine_all values true i is)
        ≡ (admits values meaning row i && all_admit row is)
  unfolding combine_all admits all_admit
  combine_and row i [] = ground arith
  combine_and row i (j ∷ js) = ground (arith, combine_and row (combine true i j) js)

  combine_or :
      (row : Row) (i : Irc values) (is : List (Irc values))
      → admits values meaning row (combine_all values false i is)
        ≡ (admits values meaning row i || any_admit row is)
  unfolding combine_all admits any_admit
  combine_or row i [] = ground arith
  combine_or row i (j ∷ js) = ground (arith, combine_or row (combine false i j) js)

  conjunction-admits :
      (row : Row) (is_and : Bool) (o : Option (List (Irc values)))
      → parts_admit row is_and o ≡ true
      → admits? values meaning row (lower_conjunction values is_and o) ≡ true
  unfolding lower_conjunction lower_all all_admit any_admit
  conjunction-admits row is_and none h = refl
  conjunction-admits row is_and (some []) h = refl
  conjunction-admits row true (some (i ∷ is)) h = combine_and row i is ∙ h
  conjunction-admits row false (some (i ∷ is)) h = combine_or row i is ∙ h

  add-and :
      (row : Row) (o : Option (Irc values)) (rest : Option (List (Irc values)))
      → admits? values meaning row o ≡ true
      → parts_admit row true rest ≡ true
      → parts_admit row true (add_lowered values true o rest) ≡ true
  unfolding add_lowered all_admit
  add-and row none rest h g = g
  add-and row (some i) none h g = refl
  add-and row (some i) (some is) h g = rw (h, g) refl

  add-or :
      (row : Row) (o : Option (Irc values)) (rest : Option (List (Irc values)))
      → (admits? values meaning row o ≡ true) ⊎ (parts_admit row false rest ≡ true)
      → parts_admit row false (add_lowered values false o rest) ≡ true
  unfolding add_lowered any_admit
  add-or row none rest h = refl
  add-or row (some i) none h = refl
  add-or row (some i) (some is) (inl h) = rw h refl
  add-or row (some i) (some is) (inr h) = rw h (ground arith)

  mutual
    unfolding keeps keeps_all keeps_any lower lower_parts all_admit

    pub lower-admits :
        (row : Row) (e : Expr values)
        → keeps values meaning row e ≡ true
        → admits? values meaning row (lower values e) ≡ true
    lower-admits row (column c) h = refl
    lower-admits row (constant v) h = refl
    lower-admits row (comparison t l r) h = comparison-admits row t l r h
    lower-admits row (conjunction true es) h =
        conjunction-admits row true (lower_parts values true es) (all-admits row es h)
    lower-admits row (conjunction false es) h =
        conjunction-admits row false (lower_parts values false es) (any-admits row es h)
    lower-admits row (null_test b es) h = null_test-admits row b es h
    lower-admits row (unsupported n) h = refl

    all-admits :
        (row : Row) (es : Exprs values)
        → keeps_all values meaning row es ≡ true
        → parts_admit row true (lower_parts values true es) ≡ true
    all-admits row nil h = refl
    all-admits row (cons e es) h =
        add-and row (lower values e) (lower_parts values true es)
          (lower-admits row e (ground arith)) (all-admits row es (ground arith))

    any-admits :
        (row : Row) (es : Exprs values)
        → keeps_any values meaning row es ≡ true
        → parts_admit row false (lower_parts values false es) ≡ true
    any-admits row nil h = cc
    any-admits row (cons e es) h =
        add-or row (lower values e) (lower_parts values false es)
          (elim (Bool-cases (keeps values meaning row e)) [
            | inl k ↦ inl (lower-admits row e k)
            | inr k ↦ inr (any-admits row es (ground arith))
          ])

  filters-admit :
      (row : Row) (fs : List (Expr values))
      → keeps_filters values meaning row fs ≡ true
      → all_admit row (lower_filters values fs) ≡ true
  unfolding keeps_filters lower_filters all_admit
  filters-admit row [] h = refl
  filters-admit row (f ∷ fs) h = elim (Option-cases (lower values f)) [
    | inl e ↦ rw (e, lower_filters) (filters-admit row fs (ground arith))
    | inr (i, e) ↦
        let admitted : admits values meaning row i ≡ true =
          rw e at (lower-admits row f (ground arith)) in
        rw (e, lower_filters) (rw (admitted, all_admit) (filters-admit row fs (ground arith)))
  ]

  -- Where no constant of a comparison is a NULL of a number or a BOOLEAN, on which the conversion throws:
  -- a row of which all filters are true satisfies the expression that goes to the server, whose JSON
  -- is the text that `SerializeFiltersToIRC` returns: a server that drops only what the expression
  -- rules out drops no row of the result. A term that cannot be sent only makes it weaker.
  pub serialize_filters-admits :
      (row : Row) (fs : List (Expr values))
      → filters_convert values fs ≡ true
      → keeps_filters values meaning row fs ≡ true
      → (o : Option (Irc values)) × (serialize_filters_to_irc values fs ≡ ok (text_of values o))
        × (admits? values meaning row o ≡ true)
  unfolding keeps_filters lower_all lower_conjunction
  serialize_filters-admits row fs k h = (
    lower_all values true (lower_filters values fs),
    serialize_filters-lower values fs k,
    conjunction-admits row true (some (lower_filters values fs)) (filters-admit row fs h),
  )
