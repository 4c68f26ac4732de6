-- ===== src/Search/Compile.antt =====
-- search/compile-query.ts: from the query that an application writes to the tree that is evaluated.
use pocket_db.Prelude.{
  ℕ, Bool, false, not, ◌||◌, Option, none, some, List, [], ◌∷◌, ◌==◌, if◌then◌else◌, Result,
  throw_if, ◌>>=◌, ◌>>◌, lookup, logical_not_array, unsupported_query_operator, in_not_array,
  nin_not_array, exists_not_boolean, options_without_regex, not_without_object,
  not_without_operator, empty_type, type_not_string, unknown_type_name, options_with_regexp,
  regex_not_string, options_not_string, unsupported_flag, bad_pattern, ok, err,
}
use pocket_db.Search.Values.{
  Text, Number, null, boolean, number, string, array, object, Values, no_values, value_then, Fields,
  no_fields, field_then, QueryValue, text_same, text_equality,
}
use pocket_db.Search.Queries.{
  TypeName, null_type, boolean_type, number_type, string_type, array_type, object_type, Js,
  FieldOperator, exists, eq, ne, gt, gte, lt, lte, in_values, nin, regex, has_type, none_of,
  FieldOperators, no_operators, operator_then, CompiledQuery, and, or, nor, field_query,
  CompiledQueries, no_queries, query_then,
}

-- A value of JavaScript in a query: that of a document, `undefined`, or a regular expression, which is
-- given by its source and its flags.
mutual
  pub data Raw : Type 0 where
    undefined_raw null_raw : Raw
    boolean_raw : Bool → Raw
    number_raw : Number → Raw
    string_raw : Text → Raw
    regexp_raw : Text → Text → Raw
    array_raw : Raws → Raw
    object_raw : RawFields → Raw

  pub data Raws : Type 0 where
    no_raws : Raws
    raw_then : Raw → Raws → Raws

  pub data RawFields : Type 0 where
    no_entries : RawFields
    entry_then : Text → Raw → RawFields → RawFields

pub data Connective : Type 0 where
  and_key or_key nor_key : Connective

-- `Query`: its entries. Under `$and`, `$or` and `$nor` stands an array of queries, or something else,
-- which is `no_array`; the key of a field is none of the three.
mutual
  pub data Query : Type 0 where
    no_conditions : Query
    under : Connective → Queries → Query → Query
    no_array : Connective → Query → Query
    on_field : Text → Raw → Query → Query

  pub data Queries : Type 0 where
    no_more : Queries
    query_and : Query → Queries → Queries

-- An operand as the value that the evaluation reads. A regular expression is an object without
-- entries of its own there; in an array `undefined` is written as `null`, in an object it is left out.
unfoldable mutual
  pub value_of : Raw → QueryValue
  value_of undefined_raw = none
  value_of null_raw = some null
  value_of (boolean_raw b) = some (boolean b)
  value_of (number_raw n) = some (number n)
  value_of (string_raw s) = some (string s)
  value_of (regexp_raw source flags) = some (object no_fields)
  value_of (array_raw raws) = some (array (values_of raws))
  value_of (object_raw fields) = some (object (fields_of fields))

  pub values_of : Raws → Values
  values_of no_raws = no_values
  values_of (raw_then raw raws) =
      value_then (elim (value_of raw) [ none ↦ null | some v ↦ v ]) (values_of raws)

  pub fields_of : RawFields → Fields
  fields_of no_entries = no_fields
  fields_of (entry_then key raw fields) =
      let rest = fields_of fields in
      elim (value_of raw) [ none ↦ rest | some v ↦ field_then key v rest ]

-- The elements of an operand that is an array.
unfoldable pub query_values_of : Raws → List QueryValue
query_values_of no_raws = []
query_values_of (raw_then raw raws) = value_of raw ∷ query_values_of raws

-- The supported operators, which the `switch` tells apart.
pub data OperatorName : Type 0 where
  name_eq name_ne name_gt name_gte name_lt name_lte name_in name_nin : OperatorName
  name_exists name_regex name_options name_type name_not : OperatorName

-- `SUPPORTED_FIELD_OPERATORS`
abbrev pub supported_field_operators : List (Text × OperatorName)
supported_field_operators =
    (b'$' ∷ b'e' ∷ b'q' ∷ [], name_eq)
    ∷ (b'$' ∷ b'n' ∷ b'e' ∷ [], name_ne)
    ∷ (b'$' ∷ b'g' ∷ b't' ∷ [], name_gt)
    ∷ (b'$' ∷ b'g' ∷ b't' ∷ b'e' ∷ [], name_gte)
    ∷ (b'$' ∷ b'l' ∷ b't' ∷ [], name_lt)
    ∷ (b'$' ∷ b'l' ∷ b't' ∷ b'e' ∷ [], name_lte)
    ∷ (b'$' ∷ b'i' ∷ b'n' ∷ [], name_in)
    ∷ (b'$' ∷ b'n' ∷ b'i' ∷ b'n' ∷ [], name_nin)
    ∷ (b'$' ∷ b'e' ∷ b'x' ∷ b'i' ∷ b's' ∷ b't' ∷ b's' ∷ [], name_exists)
    ∷ (b'$' ∷ b'r' ∷ b'e' ∷ b'g' ∷ b'e' ∷ b'x' ∷ [], name_regex)
    ∷ (b'$' ∷ b'o' ∷ b'p' ∷ b't' ∷ b'i' ∷ b'o' ∷ b'n' ∷ b's' ∷ [], name_options)
    ∷ (b'$' ∷ b't' ∷ b'y' ∷ b'p' ∷ b'e' ∷ [], name_type)
    ∷ (b'$' ∷ b'n' ∷ b'o' ∷ b't' ∷ [], name_not)
    ∷ []

-- `TYPE_ALIASES`
abbrev pub type_aliases : List (Text × TypeName)
type_aliases =
    (b'n' ∷ b'u' ∷ b'l' ∷ b'l' ∷ [], null_type)
    ∷ (b'b' ∷ b'o' ∷ b'o' ∷ b'l' ∷ b'e' ∷ b'a' ∷ b'n' ∷ [], boolean_type)
    ∷ (b'b' ∷ b'o' ∷ b'o' ∷ b'l' ∷ [], boolean_type)
    ∷ (b'n' ∷ b'u' ∷ b'm' ∷ b'b' ∷ b'e' ∷ b'r' ∷ [], number_type)
    ∷ (b's' ∷ b't' ∷ b'r' ∷ b'i' ∷ b'n' ∷ b'g' ∷ [], string_type)
    ∷ (b'a' ∷ b'r' ∷ b'r' ∷ b'a' ∷ b'y' ∷ [], array_type)
    ∷ (b'o' ∷ b'b' ∷ b'j' ∷ b'e' ∷ b'c' ∷ b't' ∷ [], object_type)
    ∷ []

-- `ALLOWED_REGEX_FLAGS`
unfoldable pub is_allowed_flag : ℕ → Bool
is_allowed_flag flag = flag == b'i' || flag == b'm' || flag == b's' || flag == b'u'

unfoldable pub assert_regex_flags : Text → Result (Unit {0})
unfolding is_allowed_flag
assert_regex_flags [] = ok tt
assert_regex_flags (flag ∷ flags) = do
  throw_if (not (is_allowed_flag flag)) unsupported_flag
  assert_regex_flags flags

-- `key.startsWith("$")`
unfoldable pub starts_with_dollar : Text → Bool
starts_with_dollar [] = false
starts_with_dollar (c ∷ key) = c == b'$'

unfoldable pub some_operator_key : RawFields → Bool
unfolding starts_with_dollar
some_operator_key no_entries = false
some_operator_key (entry_then key raw fields) = starts_with_dollar key || some_operator_key fields

unfoldable pub is_operator_object : Raw → Bool
unfolding some_operator_key
is_operator_object (object_raw fields) = some_operator_key fields
is_operator_object _ = false

-- `condition[key]`; `none` where there is no such key.
unfoldable pub entry_of : RawFields → Text → Option Raw
entry_of no_entries key = none
entry_of (entry_then first raw fields) key =
    let rest = entry_of fields key in if text_same first key then some raw else rest

unfoldable pub type_name_of : Raw → Result TypeName
type_name_of (string_raw name) = elim (lookup text_equality name type_aliases) [
  | none ↦ err unknown_type_name
  | some canonical ↦ ok canonical
]
type_name_of _ = err type_not_string

unfoldable pub type_names_of : Raws → Result (List TypeName)
unfolding type_name_of
type_names_of no_raws = ok []
type_names_of (raw_then raw raws) = do
  name ← type_name_of raw
  names ← type_names_of raws
  ok (name ∷ names)

unfoldable pub compile_type_names : Raw → Result (List TypeName)
unfolding type_names_of
compile_type_names (array_raw no_raws) = err empty_type
compile_type_names (array_raw (raw_then raw raws)) = type_names_of (raw_then raw raws)
compile_type_names value = type_names_of (raw_then value no_raws)

abbrev regex_key : Text
regex_key = b'$' ∷ b'r' ∷ b'e' ∷ b'g' ∷ b'e' ∷ b'x' ∷ []

abbrev options_key : Text
options_key = b'$' ∷ b'o' ∷ b'p' ∷ b't' ∷ b'i' ∷ b'o' ∷ b'n' ∷ b's' ∷ []

-- The construction of a regular expression, which throws (`none`) for a pattern that is none.
pub record RegExps (js : Js) : Type 0 where
  pub construct : Text → Text → Option js.RegExp

module _ (js : Js) (re : RegExps js) where
  pub construct_or_throw : Text → Text → Result js.RegExp
  construct_or_throw source flags = elim (re.construct source flags) [
    | none ↦ err bad_pattern
    | some r ↦ ok r
  ]

  -- `buildRegex` of a pattern string; `options` is `none` for `undefined`.
  pub regex_of_text : Text → Option Raw → Result js.RegExp
  unfolding construct_or_throw assert_regex_flags
  regex_of_text pattern none = construct_or_throw pattern []
  regex_of_text pattern (some undefined_raw) = construct_or_throw pattern []
  regex_of_text pattern (some (string_raw flags)) = do
    assert_regex_flags flags
    construct_or_throw pattern flags
  regex_of_text pattern (some other) = err options_not_string

  -- The same of a `RegExp`.
  pub regex_of_regexp : Text → Text → Option Raw → Result js.RegExp
  unfolding construct_or_throw assert_regex_flags
  regex_of_regexp source flags none = do assert_regex_flags flags; construct_or_throw source flags
  regex_of_regexp source flags (some undefined_raw) = do
    assert_regex_flags flags
    construct_or_throw source flags
  regex_of_regexp source flags (some other) = err options_with_regexp

  unfoldable pub build_regex : Raw → Option Raw → Result js.RegExp
  unfolding regex_of_text regex_of_regexp
  build_regex (regexp_raw source flags) options = regex_of_regexp source flags options
  build_regex (string_raw pattern) options = regex_of_text pattern options
  build_regex _ options = err regex_not_string

  -- The case of `$in`, and that of `$nin`.
  pub compile_in : Raw → Result (FieldOperator js)
  unfolding query_values_of
  compile_in (array_raw raws) = ok (in_values (query_values_of raws))
  compile_in _ = err in_not_array

  pub compile_nin : Raw → Result (FieldOperator js)
  unfolding query_values_of
  compile_nin (array_raw raws) = ok (nin (query_values_of raws))
  compile_nin _ = err nin_not_array

  pub compile_exists : Raw → Result (FieldOperator js)
  compile_exists (boolean_raw b) = ok (exists b)
  compile_exists _ = err exists_not_boolean

  -- The cases of the `switch` that push an operator, without `$options` and `$not`.
  unfoldable pub compile_simple : OperatorName → Raw → RawFields → Result (FieldOperator js)
  unfolding value_of compile_in compile_nin compile_exists build_regex compile_type_names entry_of
  compile_simple name_eq value condition = ok (eq (value_of value))
  compile_simple name_ne value condition = ok (ne (value_of value))
  compile_simple name_gt value condition = ok (gt (value_of value))
  compile_simple name_gte value condition = ok (gte (value_of value))
  compile_simple name_lt value condition = ok (lt (value_of value))
  compile_simple name_lte value condition = ok (lte (value_of value))
  compile_simple name_in value condition = compile_in value
  compile_simple name_nin value condition = compile_nin value
  compile_simple name_exists value condition = compile_exists value
  compile_simple name_regex value condition = do
    r ← build_regex value (entry_of condition options_key)
    ok (regex r)
  compile_simple name_type value condition = do
    types ← compile_type_names value
    ok (has_type types)
  compile_simple name_options value condition = err unsupported_query_operator
  compile_simple name_not value condition = err unsupported_query_operator

  -- An operator in front of those of the entries behind it.
  pub in_front : Result (FieldOperator js) → Result (FieldOperators js) → Result (FieldOperators js)
  in_front first rest = do operator ← first; others ← rest; ok (operator_then operator others)

  -- The case of `$not`, with its operand compiled: a regular expression is an object without entries.
  pub compile_not : Raw → Result (FieldOperators js) → Result (FieldOperator js)
  compile_not (object_raw no_entries) inner = err not_without_operator
  compile_not (regexp_raw source flags) inner = err not_without_operator
  compile_not (object_raw (entry_then key value fields)) inner = do
    operators ← inner
    ok (none_of operators)
  compile_not _ inner = err not_without_object

  unfoldable mutual
    unfolding compile_simple is_operator_object entry_of in_front compile_not

    pub compile_field_operators : Raw → Result (FieldOperators js)
    compile_field_operators (regexp_raw source flags) = do
      r ← regex_of_regexp source flags none
      ok (operator_then (regex r) no_operators)
    compile_field_operators (object_raw fields) =
        let operators = compile_entries fields fields in
        if is_operator_object (object_raw fields)
        then operators
        else ok (operator_then (eq (value_of (object_raw fields))) no_operators)
    compile_field_operators condition = ok (operator_then (eq (value_of condition)) no_operators)

    -- The loop over `Object.entries(condition)`, with the whole condition.
    pub compile_entries : RawFields → RawFields → Result (FieldOperators js)
    compile_entries no_entries condition = ok no_operators
    compile_entries (entry_then key value fields) condition =
        let rest = compile_entries fields condition in
        let inner = compile_field_operators value in
        elim (lookup text_equality key supported_field_operators) [
          | none ↦ err unsupported_query_operator
          | some name_not ↦ in_front (compile_not value inner) rest
          | some name_options ↦ elim (entry_of condition regex_key) [
            | none ↦ err options_without_regex
            | some _ ↦ rest
          ]
          | some name ↦ in_front (compile_simple name value condition) rest
        ]

  -- The queries of one list in front of those of another.
  unfoldable pub append_queries : CompiledQueries js → CompiledQueries js → CompiledQueries js
  append_queries no_queries others = others
  append_queries (query_then query queries) others =
      query_then query (append_queries queries others)

  -- What the loop pushes for an entry, in front of what the entries behind it give.
  pub push_logical : Connective → CompiledQueries js → CompiledQueries js → CompiledQueries js
  unfolding append_queries
  push_logical and_key queries others = append_queries queries others
  push_logical or_key queries others = query_then (or queries) others
  push_logical nor_key queries others = query_then (nor queries) others

  unfoldable mutual
    unfolding push_logical compile_field_operators

    -- The loop of `compileQuery`: the predicates of its `and`.
    pub compile_conditions : Query → Result (CompiledQueries js)
    compile_conditions no_conditions = ok no_queries
    compile_conditions (under connective queries query) = do
      predicates ← compile_logical queries
      others ← compile_conditions query
      ok (push_logical connective predicates others)
    compile_conditions (no_array connective query) = err logical_not_array
    compile_conditions (on_field field condition query) = do
      operators ← compile_field_operators condition
      others ← compile_conditions query
      ok (query_then (field_query field operators) others)

    -- `condition.map(...)` of `compileLogical`
    pub compile_logical : Queries → Result (CompiledQueries js)
    compile_logical no_more = ok no_queries
    compile_logical (query_and query queries) = do
      predicates ← compile_conditions query
      others ← compile_logical queries
      ok (query_then (and predicates) others)

  unfoldable pub compile_query : Query → Result (CompiledQuery js)
  unfolding compile_conditions
  compile_query query = do predicates ← compile_conditions query; ok (and predicates)
