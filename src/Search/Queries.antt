-- ===== src/Search/Queries.antt =====
-- The compiled queries of search/types.ts.
use pocket_db.Prelude.{◌≡◌, ◌≢◌, Bool, false, List}
use pocket_db.Search.Values.{Text, Value, Values, array, QueryValue, is_array_value}

-- `CanonicalTypeName`
pub data TypeName : Type 0 where
  null_type boolean_type number_type string_type array_type object_type : TypeName

-- What the sources use of the language beyond the values: compiled regular expressions and their
-- `test`, `localeCompare` in three outcomes, and `JSON.stringify`, which gives `undefined` for `undefined`.
pub data Compared : Type 0 where
  before equal after : Compared

pub record Js : Type 1 where
  pub RegExp : Type 0
  pub test : RegExp → Text → Bool
  pub locale_compare : Text → Text → Compared
  pub stringify : Value → Text
  -- the text of an array begins with a bracket, and the text of nothing else does
  pub array_text :
      (v : Value) (vs : Values) → is_array_value v ≡ false → stringify v ≢ stringify (array vs)

module _ (js : Js) where
  mutual
    pub data FieldOperator : Type 0 where
      exists : Bool → FieldOperator
      eq ne gt gte lt lte : QueryValue → FieldOperator
      in_values nin : List QueryValue → FieldOperator
      regex : js.RegExp → FieldOperator
      has_type : List TypeName → FieldOperator
      none_of : FieldOperators → FieldOperator

    pub data FieldOperators : Type 0 where
      no_operators : FieldOperators
      operator_then : FieldOperator → FieldOperators → FieldOperators

  mutual
    pub data CompiledQuery : Type 0 where
      and or nor : CompiledQueries → CompiledQuery
      field_query : Text → FieldOperators → CompiledQuery

    pub data CompiledQueries : Type 0 where
      no_queries : CompiledQueries
      query_then : CompiledQuery → CompiledQueries → CompiledQueries
