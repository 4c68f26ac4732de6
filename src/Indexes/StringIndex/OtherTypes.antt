-- ===== src/Indexes/StringIndex/OtherTypes.antt =====
-- Queries for values that a string index does not hold.
use pocket_db.Prelude.{
  ℕ, ◌≡◌, refl, ap, ◌∙◌, Bool, true, false, ◌&&◌, none, some, [], ◌∷◌, arith, if◌then◌else◌,
}
use pocket_db.Search.Values.{
  Text, Value, null, boolean, number, finite, QueryValue, text_equality, field_of, has_own,
  text_same_refl, number_same,
}
use pocket_db.Search.Queries.{Js, eq, no_operators, operator_then, field_query}
use pocket_db.Search.Evaluate.{
  values_equal, strictly_equal, evaluate_field_operator, evaluate_compiled_query,
}
use pocket_db.Indexes.Buckets.{collect_values}
use pocket_db.Indexes.StringIndex.{
  StringIndex, string_value, collect_string_equality_values, collect_loop, scan,
}

-- A value that is equal to itself and no string: `null`, a Boolean, a finite number.
pub data IsPlain : Value → Type 0 where
  plain_null : IsPlain null
  plain_boolean : (b : Bool) → IsPlain (boolean b)
  plain_number : (n : ℕ) → IsPlain (number (finite n))

plain_equal : (js : Js) {v : Value} → IsPlain v → values_equal js (some v) (some v) ≡ true
unfolding values_equal strictly_equal number_same
plain_equal js plain_null = refl
plain_equal js (plain_boolean true) = refl
plain_equal js (plain_boolean false) = refl
plain_equal js (plain_number n) = ground arith

no_string : {v : Value} → IsPlain v → string_value (some v) ≡ none
unfolding string_value
no_string plain_null = refl
no_string (plain_boolean b) = refl
no_string (plain_number n) = refl

field_of-only : (field : Text) (v : QueryValue) → field_of ((field, v) ∷ []) field ≡ v
unfolding field_of
field_of-only field v =
    ap (λ (b : Bool). elim (if b then some v else none) [ none ↦ none | some w ↦ w ])
      (text_equality.same-refl field)

-- Whatever a string index holds, its answer to a query for `null`, a Boolean or a finite number is that
-- there is no candidate, although a document that holds the value in the field matches the query.
pub scan_misses_other_types :
    (js : Js) (ix : StringIndex) (v : Value)
    → IsPlain v
    → let query = operator_then (eq (some v)) no_operators in
      (scan js ix ix.field query ≡ some [])
      × (evaluate_compiled_query js (field_query ix.field query) ((ix.field, some v) ∷ []) ≡ true)
unfolding scan collect_string_equality_values collect_loop collect_values evaluate_compiled_query
    evaluate_field_operator field_of has_own
scan_misses_other_types js ix v plain = (
  rw (scan, text_same_refl ix.field, collect_string_equality_values, collect_loop, no_string plain)
      refl,
  ap (λ (w : QueryValue). values_equal js w (some v) && true) (field_of-only ix.field (some v))
      ∙ rw (plain_equal js plain) refl,
)
