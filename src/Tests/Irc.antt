-- ===== src/Tests/Irc.antt =====
-- The theorems on the expressions of a scan plan at concrete inputs: rows of one number.
use unity_catalog.Base.{
  ℕ, ◌≡◌, refl, inl, inr, ◌+◌, Option, some, List, [], ◌∷◌, ◌++◌, lit, Bool, true, false, not, ltb,
  leb, ◌==◌, pos, negsuc, arith,
}
use unity_catalog.Irc.{
  Comparison, equal, not_equal, less_than, greater_than, less_or_equal, greater_or_equal,
  other_comparison, Values, Value, signed, other_value, unsigned, double, boolean, varchar,
  null_varchar, null_number, Expr, column, constant, comparison, conjunction, unsupported, nil,
  cons, serialize_filters_to_irc, json_quote,
}
use unity_catalog.Result.{ok}
use unity_catalog.Irc.Convert.{filters_convert, all_convert, children_convert}
use unity_catalog.Irc.Lower.{Irc, text_of}
use unity_catalog.Irc.Meaning.{Meaning, keeps_filters, keeps, keeps_any, compares_sides, admits?}
use unity_catalog.Irc.Prune.{serialize_filters-admits}
use unity_catalog.Irc.Quote.{read_quoted, json_quote-reads}

abbrev flip_comparison : Comparison → Comparison
flip_comparison less_than = greater_than
flip_comparison greater_than = less_than
flip_comparison less_or_equal = greater_or_equal
flip_comparison greater_or_equal = less_or_equal
flip_comparison equal = equal
flip_comparison not_equal = not_equal
flip_comparison other_comparison = other_comparison

abbrev small_values : Values
small_values = record {
  Double = ℕ;
  is_finite = λ d. true;
  format_double = λ d. d ∷ [];
  signed_text = λ n. elim n [ pos k ↦ (k + 48) ∷ [] | negsuc k ↦ lit "-" ];
  unsigned_text = λ n. n ∷ [];
  flip = flip_comparison;
}

abbrev holds : Comparison → ℕ → ℕ → Bool
holds equal a b = a == b
holds not_equal a b = not (a == b)
holds less_than a b = ltb a b
holds greater_than a b = ltb b a
holds less_or_equal a b = leb a b
holds greater_or_equal a b = leb b a
holds other_comparison a b = false

holds-flip : (t : Comparison) (a b : ℕ) → holds (flip_comparison t) a b ≡ holds t b a
holds-flip equal a b = ground arith
holds-flip not_equal a b = ground arith
holds-flip less_than a b = refl
holds-flip greater_than a b = refl
holds-flip less_or_equal a b = refl
holds-flip greater_or_equal a b = refl
holds-flip other_comparison a b = refl

abbrev with_number : Value small_values → (ℕ → Bool) → Bool
with_number (signed (pos n)) test = test n
with_number _ test = false

with_number-flip :
    (v : Value small_values) (t : Comparison) (row : ℕ)
    → with_number v (λ n. holds (flip_comparison t) row n) ≡ with_number v (λ n. holds t n row)
with_number-flip (signed (pos n)) t row = holds-flip t row n
with_number-flip (signed (negsuc n)) t row = refl
with_number-flip (unsigned n) t row = refl
with_number-flip (double d) t row = refl
with_number-flip (boolean b) t row = refl
with_number-flip (varchar s) t row = refl
with_number-flip null_varchar t row = refl
with_number-flip null_number t row = refl
with_number-flip other_value t row = refl

-- A row holds the number of its one column, and any other expression is true of an odd number.
abbrev number_rows : Meaning small_values
number_rows = record {
  Row = ℕ;
  compares = λ row c t v. with_number v (λ n. holds t row n);
  compares_from = λ row v t c. with_number v (λ n. holds t n row);
  flip_lem = λ row v t c. with_number-flip v t row;
  null_lem = λ row c o. refl;
  null = λ row c. false;
  other = λ row e. row == 7;
}

-- 5 < x AND (x = 7 OR …): the OR cannot be sent.
abbrev two_filters : List (Expr small_values)
two_filters =
    comparison less_than (constant (signed (pos 5))) (column (lit "x"))
    ∷ conjunction false (
        cons (comparison equal (column (lit "x")) (constant (signed (pos 7))))
          (cons (unsupported 0) nil))
    ∷ []

two_convert : filters_convert small_values two_filters ≡ true
unfolding filters_convert all_convert children_convert
two_convert = refl

serialize_filters-admits_example :
    (o : Option (Irc small_values)) × (serialize_filters_to_irc small_values two_filters
      ≡ ok (text_of small_values o))
    × (admits? small_values number_rows 7 o ≡ true)
unfolding keeps_filters keeps keeps_any compares_sides
serialize_filters-admits_example =
    serialize_filters-admits small_values number_rows 7 two_filters two_convert refl

json_quote-reads_example :
    read_quoted (json_quote (34 ∷ 10 ∷ 97 ∷ []) ++ lit ",") ≡ some (34 ∷ 10 ∷ 97 ∷ [], lit ",")
json_quote-reads_example =
    json_quote-reads (34 ∷ 10 ∷ 97 ∷ []) (lit ",")
      (inl (omega arith), (inr (inl refl), (inl (omega arith), tt)))
