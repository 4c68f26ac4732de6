-- ===== src/Search/Evaluate.antt =====
-- search/evaluate-query.ts
use pocket_db.Prelude.{
  Bool, true, false, not, ◌&&◌, ◌||◌, Option, none, some, List, [], ◌∷◌, ltb, if◌then◌else◌,
}
use pocket_db.Search.Values.{
  Number, nan, minus_infinity, finite, plus_infinity, null, boolean, number, string, array, object,
  QueryValue, DocumentRecord, text_same, field_of, has_own, number_same,
}
use pocket_db.Search.Queries.{
  TypeName, null_type, boolean_type, number_type, string_type, array_type, object_type, Compared,
  before, equal, after, Js, FieldOperator, exists, eq, ne, gt, gte, lt, lte, in_values, nin, regex,
  has_type, none_of, FieldOperators, no_operators, operator_then, CompiledQuery, and, or, nor,
  field_query, CompiledQueries, no_queries, query_then,
}

-- `left - right`, where `none` is NaN.
unfoldable pub difference : Number → Number → Option Compared
difference nan _ = none
difference _ nan = none
difference (finite a) (finite b) =
    some (if ltb a b then before else if ltb b a then after else equal)
difference minus_infinity minus_infinity = none
difference plus_infinity plus_infinity = none
difference minus_infinity _ = some before
difference plus_infinity _ = some after
difference _ plus_infinity = some before
difference _ minus_infinity = some after

unfoldable pub is_before : Option Compared → Bool
is_before (some before) = true
is_before _ = false

unfoldable pub is_equal : Option Compared → Bool
is_equal (some equal) = true
is_equal _ = false

unfoldable pub is_after : Option Compared → Bool
is_after (some after) = true
is_after _ = false

unfoldable pub is_document_object : QueryValue → Bool
is_document_object (some (object _)) = true
is_document_object _ = false

unfoldable pub is_array : QueryValue → Bool
is_array (some (array _)) = true
is_array _ = false

-- `===`. For arrays and objects it compares references, and the text of one reference is one, so that
-- what `values_equal` makes of a difference is the same.
unfoldable pub strictly_equal : QueryValue → QueryValue → Bool
unfolding number_same
strictly_equal none none = true
strictly_equal (some null) (some null) = true
strictly_equal (some (boolean true)) (some (boolean b)) = b
strictly_equal (some (boolean false)) (some (boolean b)) = not b
strictly_equal (some (number a)) (some (number b)) = number_same a b
strictly_equal (some (string a)) (some (string b)) = text_same a b
strictly_equal _ _ = false

-- The caller guarantees that the field is there; `undefined` would be an object.
unfoldable pub json_type_of : QueryValue → TypeName
json_type_of (some null) = null_type
json_type_of (some (array _)) = array_type
json_type_of (some (boolean _)) = boolean_type
json_type_of (some (number _)) = number_type
json_type_of (some (string _)) = string_type
json_type_of _ = object_type

-- `===` on type names
pub type_same : TypeName → TypeName → Bool
type_same null_type null_type = true
type_same boolean_type boolean_type = true
type_same number_type number_type = true
type_same string_type string_type = true
type_same array_type array_type = true
type_same object_type object_type = true
type_same _ _ = false

-- `types.includes`
pub includes : List TypeName → TypeName → Bool
unfolding type_same
includes [] t = false
includes (first ∷ types) t = type_same first t || includes types t

module _ (js : Js) where
  unfoldable pub compare_values : QueryValue → QueryValue → Option Compared
  unfolding difference
  compare_values (some (number left)) (some (number right)) = difference left right
  compare_values (some (string left)) (some (string right)) = some (js.locale_compare left right)
  compare_values _ _ = none

  -- `JSON.stringify(left) === JSON.stringify(right)`
  unfoldable pub texts_equal : QueryValue → QueryValue → Bool
  texts_equal none none = true
  texts_equal (some left) (some right) = text_same (js.stringify left) (js.stringify right)
  texts_equal _ _ = false

  unfoldable pub values_equal : QueryValue → QueryValue → Bool
  unfolding strictly_equal texts_equal is_array is_document_object
  values_equal left right =
      if strictly_equal left right
      then true
      else if is_array left || is_array right
      then texts_equal left right
      else if is_document_object left && is_document_object right
      then texts_equal left right
      else false

  -- `values.some((candidate) => valuesEqual(value, candidate))`
  unfoldable pub any_equal : QueryValue → List QueryValue → Bool
  unfolding values_equal
  any_equal value [] = false
  any_equal value (candidate ∷ values) = values_equal value candidate || any_equal value values

  -- `typeof value === "string" && regex.test(value)`
  pub regex_matches : js.RegExp → QueryValue → Bool
  regex_matches r (some (string s)) = js.test r s
  regex_matches r _ = false

  unfoldable mutual
    unfolding compare_values is_before is_after is_equal any_equal values_equal regex_matches
        includes json_type_of

    pub evaluate_field_operator : FieldOperator js → QueryValue → Bool → Bool
    evaluate_field_operator (exists wanted) value has_field =
        if has_field then wanted else not wanted
    evaluate_field_operator (eq operand) value has_field = values_equal value operand
    evaluate_field_operator (ne operand) value has_field = not (values_equal value operand)
    evaluate_field_operator (gt operand) value has_field = is_after (compare_values value operand)
    evaluate_field_operator (gte operand) value has_field =
        is_after (compare_values value operand) || is_equal (compare_values value operand)
    evaluate_field_operator (lt operand) value has_field = is_before (compare_values value operand)
    evaluate_field_operator (lte operand) value has_field =
        is_before (compare_values value operand) || is_equal (compare_values value operand)
    evaluate_field_operator (in_values operands) value has_field = any_equal value operands
    evaluate_field_operator (nin operands) value has_field = not (any_equal value operands)
    evaluate_field_operator (regex r) value has_field = regex_matches r value
    evaluate_field_operator (has_type types) value has_field =
        if has_field then includes types (json_type_of value) else false
    evaluate_field_operator (none_of operators) value has_field =
        not (every_operator operators value has_field)

    -- `operators.every(...)`
    pub every_operator : FieldOperators js → QueryValue → Bool → Bool
    every_operator no_operators value has_field = true
    every_operator (operator_then operator others) value has_field =
        evaluate_field_operator operator value has_field && every_operator others value has_field

  unfoldable mutual
    unfolding evaluate_field_operator every_operator field_of has_own

    pub evaluate_compiled_query : CompiledQuery js → DocumentRecord → Bool
    evaluate_compiled_query (and predicates) document = every_query predicates document
    evaluate_compiled_query (or predicates) document = some_query predicates document
    evaluate_compiled_query (nor predicates) document = no_query predicates document
    evaluate_compiled_query (field_query field operators) document =
        every_operator operators (field_of document field) (has_own document field)

    -- `predicates.every(...)`
    pub every_query : CompiledQueries js → DocumentRecord → Bool
    every_query no_queries document = true
    every_query (query_then query others) document =
        evaluate_compiled_query query document && every_query others document

    -- `predicates.some(...)`, which is false of none
    pub some_query : CompiledQueries js → DocumentRecord → Bool
    some_query no_queries document = false
    some_query (query_then query others) document =
        evaluate_compiled_query query document || some_query others document

    -- `predicates.every((p) => !...)`
    pub no_query : CompiledQueries js → DocumentRecord → Bool
    no_query no_queries document = true
    no_query (query_then query others) document =
        not (evaluate_compiled_query query document) && no_query others document
